-- ===== src/Invoices/Keeps.antt =====
-- Each call of the services keeps what the writes keep.
use nation_wide.Common.{
  String, ℕ, ◌≡◌, refl, Option, none, some, List, All, All-In, find, find-In, or_default, ◌==◌,
  Bool-cases, inl, inr,
}
use nation_wide.Gst.{ChargedBreakdown, resolve_charged_breakdown}
use nation_wide.Invoices.States.{StateTexts, is_blank}
use nation_wide.Invoices.Books.{
  BilledCustomer, OrderForInvoice, Supplier, Description, InvoiceBody, Invoice, Receipt, Counters,
  order_cancelled, no_amount, B, ◌>>=◌,
}
use nation_wide.Invoices.Issue.{require_complete_settings, when_present}
use nation_wide.Invoices.Order.{
  candidates_of, order_body, no_lines, priced, issue_for_order, is_order, is_cancelled_order,
  generate_new, generate_by, generate_for_order, bills_order, default_gst_percent,
}
use nation_wide.Invoices.Custom.{
  CustomInvoice, gross_of, custom_body, is_customer, described, description_of, issue_custom,
}
use nation_wide.Invoices.Consolidated.{Billable, consolidated_body}
use nation_wide.Invoices.Rules.{Any, Stable, Inv, Triple, Post}
use nation_wide.Invoices.Rules

-- An order that can be billed, with the breakdown that the invoice states.
abbrev pub IsBillable : (OrderForInvoice → Type 0) → Billable → Type 0
IsBillable Fine b =
    (resolve_charged_breakdown (candidates_of b.order) ≡ some b.breakdown) × Fine b.order

-- The bodies that the three ways to issue an invoice fill in are good.
pub record GoodBodies (Good : InvoiceBody → Type 0) (Fine : OrderForInvoice → Type 0) : Type 0 where
  pub of_order :
      (t : StateTexts) (s : Supplier) (o : OrderForInvoice) (b : ChargedBreakdown)
      → Fine o
      → resolve_charged_breakdown (candidates_of o) ≡ some b
      → Good (order_body t s o b)
  pub of_custom :
      (t : StateTexts) (percent : ℕ) (s : Supplier) (c : BilledCustomer) (input : CustomInvoice)
      (d : Description)
      → Good (custom_body t percent s c input d)
  pub of_period :
      (t : StateTexts) (s : Supplier) (c : BilledCustomer) (from to : ℕ) (place : String)
      (bs : List Billable)
      → All (IsBillable Fine) bs
      → Good (consolidated_body t s c from to place bs)

module _ (P : List Invoice → List Receipt → Counters → Type 0) (Good : InvoiceBody → Type 0)
    (Fine : OrderForInvoice → Type 0) (stable : Stable P Good) (bodies : GoodBodies Good Fine) where
  abbrev pub Keeps : {A : Type 0} → B A → Type 0
  Keeps m = Triple P Good Fine m Any

  present :
      {A : Type 0} (s : Option String) (k : String → B A)
      → ((x : String) → Keeps (k x))
      → Keeps (when_present s k)
  present none k h w p = p
  present (some s) k h w p = elim (Bool-cases (is_blank s)) [
    | inl e ↦ rw e p
    | inr e ↦ rw e (h s w p)
  ]

  pub requires : Keeps require_complete_settings
  unfolding require_complete_settings
  requires w p =
      present w.settings.gstin _
        (λ a. present w.settings.legal_name _ (λ b. present w.settings.address _ (λ c.
          present w.settings.state_name _ (λ d.
            present w.settings.state_code _
              (λ e. present w.settings.sac_code _ (λ f v q. (q, tt)))))))
        w p

  prices :
      {A : Type 0} (o : Option ChargedBreakdown) (f : ChargedBreakdown → B A)
      → ((b : ChargedBreakdown) → o ≡ some b → Keeps (f b))
      → Keeps (priced o >>= f)
  prices none f k w p = p
  prices (some b) f k w p = k b refl w p

  for_order : (now actor : ℕ) (o : OrderForInvoice) → Fine o → Keeps (issue_for_order now actor o)
  unfolding issue_for_order
  for_order now actor o fine =
      Rules.bind P Good Fine Any Any require_complete_settings _ requires (λ s u.
        prices (resolve_charged_breakdown (candidates_of o)) _ (λ b e.
          Rules.reads P Good Fine Any Any (λ w. w.texts) _ (λ w q. tt)
            (λ t v.
              Rules.issues P Good Fine stable now actor s (order_body t s o b) no_lines
                (bodies.of_order t s o b fine e))))

  generates_new : (now actor id : ℕ) → Keeps (generate_new now actor id)
  unfolding generate_new
  generates_new now actor id =
      Rules.reads P Good Fine (All Fine) Any (λ w. w.orders) _ (λ w q. q.1)
        (λ os all. Rules.finds P Good Fine Any (find (is_order id) os) _ (λ o e.
          Rules.guard P Good Fine Any (is_cancelled_order o.status) order_cancelled _
            (for_order now actor o (All-In Fine o os all (find-In (is_order id) os e)))))

  generates_by : (old : Option Invoice) (now actor id : ℕ) → Keeps (generate_by old now actor id)
  unfolding generate_by
  generates_by none now actor id w p = generates_new now actor id w p
  generates_by (some i) now actor id w p = (p, tt)

  pub generates : (now actor id : ℕ) → Keeps (generate_for_order now actor id)
  unfolding generate_for_order
  generates now actor id w p = generates_by (find (bills_order id) w.invoices) now actor id w p

  describes :
      {A : Type 0} (d : Option Description) (f : Description → B A)
      → ((x : Description) → Keeps (f x))
      → Keeps (described d >>= f)
  describes none f k w p = p
  describes (some d) f k w p = k d w p

  pub issues_custom : (now actor : ℕ) (input : CustomInvoice) → Keeps (issue_custom now actor input)
  unfolding issue_custom
  issues_custom now actor input =
      Rules.bind P Good Fine Any Any require_complete_settings _ requires (λ s u.
        Rules.reads P Good Fine Any Any (λ w. w.customers) _ (λ w q. tt)
          (λ cs v. Rules.finds P Good Fine Any (find (is_customer input.customer_id) cs) _ (λ c e.
            Rules.guard P Good Fine Any (gross_of input.gross_amount input.lines == 0) no_amount _ (
              Rules.reads P Good Fine Any Any (λ w. w.texts) _ (λ w q. tt)
                (λ t v. describes (description_of t input.description input.lines) _ (λ d.
                  Rules.reads P Good Fine Any Any
                    (λ w. or_default w.gst_percent default_gst_percent) _ (λ w q. tt)
                    (λ percent v.
                      Rules.issues P Good Fine stable now actor s
                        (custom_body t percent s c input d) no_lines
                        (bodies.of_custom t percent s c input d))))))))
