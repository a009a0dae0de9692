-- ===== src/Postoffice/Customers.antt =====
-- `AddCustomer`, `RemoveCustomer` and `GetCustomer`.
use step_mesh.Prelude.{
  ==_iff, ℕ, ◌≡◌, ap, ◌∙◌, inl, inr, Bool, true, false, Option, none, some, List, [], ◌∷◌, arith,
  ◌==◌, if◌then◌else◌, Bool-cases,
}
use step_mesh.Prelude.Map.{Map, find, insert, erase, find-insert, find-erase}
use step_mesh.Prelude.Result.{Result, ok, fatal, check, ◌>>◌}
use step_mesh.Postoffice.{Postoffice}

abbrev pub or_empty {ℓ} : {V : Type ℓ} → Option (Map V) → Map V
or_empty none = []
or_empty (some m) = m

-- m[k], which inserts an empty map where there is none.
abbrev pub inner {ℓ} : {V : Type ℓ} → ℕ → Map (Map V) → Map V
inner k m = or_empty (find k m)

-- std::unordered_map::insert, which keeps an entry that is there.
abbrev pub insert_new {ℓ} : {V : Type ℓ} → ℕ → V → Map V → Map V
insert_new k v m = elim (find k m) [ none ↦ insert k v m | some _ ↦ m ]

abbrev pub is_none {ℓ} : {V : Type ℓ} → Option V → Bool
is_none none = true
is_none (some _) = false

-- `customer` is the address of a customer with this `app_id` and `customer_id`.
unfoldable pub add_customer : (customer app_id customer_id : ℕ) → Postoffice → Result Postoffice
add_customer customer app_id customer_id po =
    check (is_none (find customer_id (inner app_id po.customers)))
    >> ok (record po {
      customers =
          insert app_id (insert customer_id customer (inner app_id po.customers)) po.customers;
      barrier_done =
          insert app_id (insert_new customer_id false (inner app_id po.barrier_done))
            po.barrier_done;
    })

-- An application with no customer left is erased.
abbrev pub put_or_erase : ℕ → Map ℕ → Map (Map ℕ) → Map (Map ℕ)
put_or_erase app_id [] m = erase app_id m
put_or_erase app_id (e ∷ left) m = insert app_id (e ∷ left) m

pub remove_customer : (app_id customer_id : ℕ) → Postoffice → Postoffice
remove_customer app_id customer_id po =
    let left = erase customer_id (inner app_id po.customers) in
    record po { customers = put_or_erase app_id left po.customers }

-- The loop of `GetCustomer`: `tries` has what `customers_` holds at each of its `timeout * 1000 + 1`
-- rounds. It ends at the first round that finds the application, with the null pointer if the
-- application lacks the customer.
unfoldable pub get_customer : List (Map (Map ℕ)) → (app_id customer_id : ℕ) → Option ℕ
get_customer [] app_id customer_id = none
get_customer (customers ∷ tries) app_id customer_id =
    let rest = get_customer tries app_id customer_id in
    elim (find app_id customers) [ some in_app ↦ find customer_id in_app | none ↦ rest ]

pub inner-insert {ℓ} :
    {V : Type ℓ} (k j : ℕ) (v : Map V) (m : Map (Map V))
    → inner j (insert k v m) ≡ (if k == j then v else inner j m)
inner-insert k j v m = elim (Bool-cases (k == j)) [
  | inl e ↦ ap or_empty (find-insert k j v m) ∙ rw e
  | inr e ↦ ap or_empty (find-insert k j v m) ∙ rw e
]

inner-put_or_erase :
    (k j : ℕ) (v : Map ℕ) (m : Map (Map ℕ))
    → inner j (put_or_erase k v m) ≡ (if k == j then v else inner j m)
inner-put_or_erase k j [] m = elim (Bool-cases (k == j)) [
  | inl e ↦ ap or_empty (find-erase k j m) ∙ rw e
  | inr e ↦ ap or_empty (find-erase k j m) ∙ rw e
]
inner-put_or_erase k j (e ∷ v) m = inner-insert k j (e ∷ v) m

-- A customer that was added is found, and every other customer is found as before.
pub get_customer-add_customer :
    (po po' : Postoffice) (customer app_id customer_id app other : ℕ) (tries : List (Map (Map ℕ)))
    → add_customer customer app_id customer_id po ≡ ok po'
    → (get_customer (po'.customers ∷ tries) app_id customer_id ≡ some customer)
      × (find other (inner app po'.customers) ≡ (
          if app_id == app
          then (if customer_id == other then some customer else find other (inner app po.customers))
          else find other (inner app po.customers)))
unfolding get_customer add_customer
get_customer-add_customer po po' customer app_id customer_id app other tries e =
    let added : po'.customers
        ≡ insert app_id (insert customer_id customer (inner app_id po.customers)) po.customers =
      ground arith in
    let v : Map ℕ = insert customer_id customer (inner app_id po.customers) in
    rw added (
      ground (
        arith,
        find-insert app_id app_id v po.customers,
        find-insert customer_id customer_id customer (inner app_id po.customers),
      ),
      elim (Bool-cases (app_id == app)) [
        | inl e' ↦
            let same : inner app_id po.customers ≡ inner app po.customers =
              ap (λ k. inner k po.customers) ((==_iff app_id app).0 e') in
            rw (inner-insert, e', find-insert, same)
        | inr e' ↦ rw (inner-insert, e')
      ],
    )

-- Adding a customer whose id is taken in its application stops the process.
pub add_customer-taken :
    (po : Postoffice) (customer app_id customer_id old : ℕ)
    → find customer_id (inner app_id po.customers) ≡ some old
    → add_customer customer app_id customer_id po ≡ fatal
unfolding add_customer
add_customer-taken po customer app_id customer_id old e = rw e

-- A removed customer is gone, and every other customer is found as before.
pub find-remove_customer :
    (po : Postoffice) (app_id customer_id app other : ℕ)
    → find other (inner app (remove_customer app_id customer_id po).customers) ≡ (
        if app_id == app
        then (if customer_id == other then none else find other (inner app po.customers))
        else find other (inner app po.customers))
unfolding remove_customer
find-remove_customer po app_id customer_id app other =
    let same : (app_id == app) ≡ true → inner app_id po.customers ≡ inner app po.customers =
      λ e. ap (λ k. inner k po.customers) ((==_iff app_id app).0 e) in
    elim (Bool-cases (app_id == app)) [
      | inl e ↦ rw (inner-put_or_erase, e, find-erase, same e)
      | inr e ↦ rw (inner-put_or_erase, e)
    ]
