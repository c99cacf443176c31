-- ===== src/Quotes/Created.antt =====
-- A quote is created once for its key.
use text.Mathlib.Text.{◌==◌ as str_eq}
use nation_wide.Common.{
  ℕ, zero, suc, ◌+◌, ◌≤◌, ◌≡◌, ◌≢◌, ◌⊎◌, refl, sym, ap, subst, true, Bool-cases, inl, inr, Option,
  none, some, List, [], ◌∷◌, String, arith,
}
use nation_wide.Store.{World, Table, put, Result, ok, err, bound, Quote, Refused}
use text.Mathlib.TextPositions.{eq_refl}
use nation_wide.Quotes.Rating.{rate_request}
use nation_wide.Quotes.Window.{CreateQuote, check_window, assert_valid_pickup_window}
use nation_wide.Quotes.Create.{
  create, write_quote, insert_quote, new_quote, input_of, count, quote_by_key, keyed, or_else,
  is_row,
}

no_more : (n : ℕ) → n ≡ n + zero
no_more n = omega arith

one_more : (n k : ℕ) → suc (n + k) ≡ n + suc k
one_more n k = omega arith

-- A row that was found is found among more ids too.
found_on :
    (key : String) (t : Table Quote) (n k : ℕ) (q : Quote)
    → quote_by_key key t n ≡ some q
    → quote_by_key key t (n + k) ≡ some q
unfolding quote_by_key
found_on key t n zero q h = subst (λ m. quote_by_key key t m ≡ some q) (no_more n) h
found_on key t n (suc k) q h =
    subst (λ m. quote_by_key key t m ≡ some q) (one_more n k)
      (ap (λ o. or_else o (keyed key (t (n + k)))) (found_on key t n k q h))

-- Rows at later ids make no difference.
same_below :
    (key : String) (t : Table Quote) (n id : ℕ) (q : Quote)
    → n ≤ id
    → quote_by_key key (put t id q) n ≡ quote_by_key key t n
unfolding quote_by_key
same_below key t zero id q h = refl
same_below key t (suc n) id q h =
    rw (same_below key t n id q (ground arith))
      (ap (λ o. or_else (quote_by_key key t n) (keyed key o)) (ground arith))

-- The row that was written is the one that its key finds.
found_new :
    (key : String) (w : World) (q : Quote) (options : ℕ)
    → str_eq q.submission_key key ≡ true
    → quote_by_key key w.quotes w.next_id ≡ none
    → quote_by_key key (put w.quotes w.next_id q) (w.next_id + 1 + options) ≡ some q
unfolding quote_by_key
found_new key w q options e h = found_on key (put w.quotes w.next_id q) (w.next_id + 1) options q (
    subst (λ m. quote_by_key key (put w.quotes w.next_id q) m ≡ some q) (next w.next_id)
      (rw (same_below key w.quotes w.next_id w.next_id q (ground arith)) (rw h (ground arith))))
  where
    next : (n : ℕ) → suc n ≡ n + 1
    next n = omega arith

-- After a submission that made the row `q`, its key finds it.
Kept : String → Result Quote × World → Type 0
Kept key (ok q, w) = quote_by_key key w.quotes w.next_id ≡ some q
Kept key (err e, w) = Unit {0}

insert_quote-Kept :
    (key : String) (w : World) (make : ℕ → Quote) (options : ℕ)
    → ((id : ℕ) → str_eq (make id).submission_key key ≡ true)
    → Kept key (insert_quote (quote_by_key key w.quotes w.next_id) make options w)
unfolding insert_quote Kept
insert_quote-Kept key w make options k = by_row (quote_by_key key w.quotes w.next_id) refl
  where
    by_row :
        (o : Option Quote)
        → quote_by_key key w.quotes w.next_id ≡ o
        → Kept key (insert_quote o make options w)
    by_row (some q) e = e
    by_row none e = elim (Bool-cases (is_row (w.quotes w.next_id))) [
      | inl y ↦ rw y tt
      | inr n ↦ rw n (found_new key w (make w.next_id) options (k w.next_id) e)
    ]

write_quote-Kept :
    (now : ℕ) (hours : Option ℕ) (dto : CreateQuote) (customer : ℕ) (w : World)
    → Kept dto.submission_key (write_quote now hours dto customer w)
unfolding write_quote new_quote
write_quote-Kept now hours dto customer w =
    insert_quote-Kept dto.submission_key w
      (new_quote w.texts now hours dto customer (rate_request w.tables (input_of dto)))
      (count (rate_request w.tables (input_of dto)).options) (λ id. eq_refl dto.submission_key)

create-Kept :
    (now : ℕ) (hours : Option ℕ) (dto : CreateQuote) (customer : ℕ) (w : World)
    → Kept dto.submission_key (create now hours dto customer w)
unfolding create Kept
create-Kept now hours dto customer w = after (check_window now dto w)
  where
    after :
        (res : Result Unit × World)
        → Kept dto.submission_key (bound (λ _. write_quote now hours dto customer) res)
    after (ok a, u) = write_quote-Kept now hours dto customer u
    after (err e, u) = tt

pub check_window_reads : (now : ℕ) (dto : CreateQuote) (w : World) → (check_window now dto w).1 ≡ w
unfolding check_window assert_valid_pickup_window
check_window_reads now dto w = ground arith

-- A call of `create`: when, the hours that options stay valid, what is asked and by whom.
pub record Submission : Type 0 where
  pub at : ℕ
  pub hours : Option ℕ
  pub dto : CreateQuote
  pub customer : ℕ

abbrev submit_one : Submission → World → World
submit_one c w = (create c.at c.hours c.dto c.customer w).1

unfoldable pub submit : List Submission → World → World
submit [] w = w
submit (c ∷ cs) w = submit cs (submit_one c w)

-- A row that the key finds is found after an insertion.
insert_quote-Found :
    (key : String) (q : Quote) (w : World) (o : Option Quote) (make : ℕ → Quote) (options : ℕ)
    → quote_by_key key w.quotes w.next_id ≡ some q
    → quote_by_key key
        (insert_quote o make options w).1.quotes
        (insert_quote o make options w).1.next_id
      ≡ some q
unfolding insert_quote
insert_quote-Found key q w (some p) make options h = h
insert_quote-Found key q w none make options h = elim (Bool-cases (is_row (w.quotes w.next_id))) [
  | inl y ↦ rw y h
  | inr n ↦ rw n (
      found_on key (put w.quotes w.next_id (make w.next_id)) (w.next_id + 1) options q (
        found_on key (put w.quotes w.next_id (make w.next_id)) w.next_id 1 q
          (rw (same_below key w.quotes w.next_id w.next_id (make w.next_id) (ground arith)) h)))
]

create-Found :
    (key : String) (q : Quote) (c : Submission) (w : World)
    → quote_by_key key w.quotes w.next_id ≡ some q
    → quote_by_key key (submit_one c w).quotes (submit_one c w).next_id ≡ some q
unfolding create write_quote
create-Found key q c w h = by_check (check_window c.at c.dto w) (check_window_reads c.at c.dto w)
  where
    Found : World → Type 0
    Found v = quote_by_key key v.quotes v.next_id ≡ some q

    by_check :
        (res : Result (Unit {0}) × World)
        → res.1 ≡ w
        → Found (bound (λ _. write_quote c.at c.hours c.dto c.customer) res).1
    by_check (ok a, u) e =
        subst (λ v. Found (write_quote c.at c.hours c.dto c.customer v).1) (sym e)
          (insert_quote-Found key q w (quote_by_key c.dto.submission_key w.quotes w.next_id)
            (new_quote w.texts c.at c.hours c.dto c.customer
              (rate_request w.tables (input_of c.dto)))
            (count (rate_request w.tables (input_of c.dto)).options) h)
    by_check (err x, u) e = subst Found (sym e) h

-- What quotes are submitted in between makes no difference.
later-Found :
    (key : String) (q : Quote) (cs : List Submission) (w : World)
    → quote_by_key key w.quotes w.next_id ≡ some q
    → quote_by_key key (submit cs w).quotes (submit cs w).next_id ≡ some q
unfolding submit
later-Found key q [] w h = h
later-Found key q (c ∷ cs) w h = later-Found key q cs (submit_one c w) (create-Found key q c w h)

-- The submission passes its checks and gets the row, or fails them; either way nothing changes.
abbrev pub IsAnswered : ℕ → Option ℕ → CreateQuote → ℕ → World → Quote → Type 0
IsAnswered now hours dto customer w q =
    ((check_window now dto w ≡ (ok tt, w)) × (create now hours dto customer w ≡ (ok q, w)))
    ⊎ ((check_window now dto w ≢ (ok tt, w)) × Refused w (create now hours dto customer w))

create-IsAnswered :
    (now : ℕ) (hours : Option ℕ) (dto : CreateQuote) (customer : ℕ) (w : World) (q : Quote)
    → quote_by_key dto.submission_key w.quotes w.next_id ≡ some q
    → IsAnswered now hours dto customer w q
unfolding create write_quote insert_quote
create-IsAnswered now hours dto customer w q found =
    by_check (check_window now dto w) (check_window_reads now dto w)
  where
    by_check :
        (res : Result (Unit {0}) × World)
        → res.1 ≡ w
        → ((res ≡ (ok tt, w)) × (bound (λ _. write_quote now hours dto customer) res ≡ (ok q, w)))
          ⊎ ((res ≢ (ok tt, w)) × Refused w (bound (λ _. write_quote now hours dto customer) res))
    by_check (ok a, u) e = inl (ap (λ v. (ok tt, v)) e, rw e (rw found refl))
    by_check (err x, u) e = inr (λ same. cc, ground arith)

-- A submission whose key has made a row, however many quotes were submitted in between, and
-- whatever it says and whoever sends it, gets that row if its pickup window passes, and is refused
-- if not. It changes nothing.
pub create_again :
    (now now' : ℕ) (hours hours' : Option ℕ) (dto dto' : CreateQuote) (customer customer' : ℕ)
    (w w' : World) (q : Quote) (between : List Submission)
    → create now hours dto customer w ≡ (ok q, w')
    → dto'.submission_key ≡ dto.submission_key
    → IsAnswered now' hours' dto' customer' (submit between w') q
unfolding Kept
create_again now now' hours hours' dto dto' customer customer' w w' q between e k =
    let kept = subst (Kept dto.submission_key) e (create-Kept now hours dto customer w) in
    create-IsAnswered now' hours' dto' customer' (submit between w') q
      (rw k (later-Found dto.submission_key q between w' kept))
