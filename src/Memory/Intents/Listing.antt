-- ===== src/Memory/Intents/Listing.antt =====
-- What ListPending answers: intents of the store, all pending, in the order of their arrival.
use workspace_service.Base.{
  ℕ, zero, suc, ◌≤◌, ◌≡◌, refl, sym, ap, ◌∙◌, true, none, some, List, [], ◌∷◌, Text, text_eq,
  text_eq_iff, Map, lookup, insert, lookup-insert, values, text_key, if◌then◌else◌, arith,
  Option-cases, inl, inr, length, take, All, All-take, All-if, ◌&&◌, All-map_lem, length-take_eq,
  ltb, Bool-cases,
}
use workspace_service.File.{Intent, is_pending}
use workspace_service.Memory.Intents.{
  FileIntentStore, update_intent, order_of, pending_of, insert_sorted, sort_by_order, cut,
  list_pending,
}
use workspace_service.Memory.Intents.Pending.{pending_weight, pending_count}

-- Every entry stands under the id of its intent, once.
abbrev pub IsKeyed : Map Text Intent → Type 0
IsKeyed [] = Unit
IsKeyed ((k, i) ∷ m) = (i.id ≡ k) × (lookup k m ≡ none) × IsKeyed m

pub lookup-id :
    (k : Text) (m : Map Text Intent) (i : Intent) → IsKeyed m → lookup k m ≡ some i → i.id ≡ k
unfolding lookup
lookup-id k [] i h e = cc
lookup-id k ((j, v) ∷ m) i (same, new, keyed) e =
    ground (arith, text_eq_iff j k, lookup-id k m i keyed)

pub insert-IsKeyed :
    (k : Text) (i : Intent) (m : Map Text Intent) → i.id ≡ k → IsKeyed m → IsKeyed (insert k i m)
unfolding lookup insert
insert-IsKeyed k i [] e h = (e, refl, tt)
insert-IsKeyed k i ((j, v) ∷ m) e h = elim (Bool-cases (text_eq j k)) [
  | inl same ↦ rw same ((e ∙ sym ((text_eq_iff j k).0 same)), h.1, h.2)
  | inr other ↦ rw other (
    h.0,
    ground (arith, lookup-insert k j i m, text_eq_iff k j, text_eq_iff j k),
    insert-IsKeyed k i m e h.2,
  )
]

pub update_intent-IsKeyed :
    (id : Text) (f : Intent → Intent) (s : FileIntentStore)
    → ((i : Intent) → (f i).id ≡ i.id)
    → IsKeyed s.intents
    → IsKeyed (update_intent id f s).intents
unfolding update_intent
update_intent-IsKeyed id f s keeps h = elim (Option-cases (lookup id s.intents)) [
  | inl e ↦ rw (e, update_intent) h
  | inr (i, e) ↦
      rw (e, update_intent)
        (insert-IsKeyed id (f i) s.intents (keeps i ∙ lookup-id id s.intents i h e) h)
]

-- Stored and pending.
abbrev pub IsListed : Map Text Intent → Intent → Type 0
IsListed m i = (lookup i.id m ≡ some i) × (is_pending i.status ≡ true)

values-IsListed : (m : Map Text Intent) → IsKeyed m → All (IsListed m) (pending_of (values m))
unfolding lookup pending_of
values-IsListed [] h = tt
values-IsListed ((k, i) ∷ m) (same, new, keyed) = listed_head (pending_of (values m)) (
    All-map_lem (IsListed m) (IsListed ((k, i) ∷ m)) (pending_of (values m)) listed_later
      (values-IsListed m keyed))
  where
    listed_later : (x : Intent) → IsListed m x → IsListed ((k, i) ∷ m) x
    listed_later x (found, p) = (ground (arith, text_eq_iff k x.id), p)

    listed_head :
        (js : List Intent)
        → All (IsListed ((k, i) ∷ m)) js
        → All (IsListed ((k, i) ∷ m)) (if is_pending i.status then i ∷ js else js)
    listed_head js h = elim (Bool-cases (is_pending i.status)) [
      | inl p ↦ rw p ((ground (arith, text_eq_iff k i.id), p), h)
      | inr q ↦ rw q h
    ]

module _ (P : Intent → Type 0) (order : Map Text ℕ) where
  insert_sorted-All :
      (i : Intent) (is : List Intent) → P i → All P is → All P (insert_sorted order i is)
  unfolding insert_sorted
  insert_sorted-All i [] p h = (p, tt)
  insert_sorted-All i (j ∷ js) p (q, h) =
      All-if P (ltb (order_of order j.id) (order_of order i.id)) (j ∷ insert_sorted order i js)
        (i ∷ j ∷ js) (q, insert_sorted-All i js p h) (p, (q, h))

  sort_by_order-All : (is : List Intent) → All P is → All P (sort_by_order order is)
  unfolding sort_by_order
  sort_by_order-All [] h = tt
  sort_by_order-All (i ∷ is) (p, h) =
      insert_sorted-All i (sort_by_order order is) p (sort_by_order-All is h)

-- The first intent came before all the others.
abbrev pub IsSorted : Map Text ℕ → List Intent → Type 0
IsSorted order [] = Unit
IsSorted order (i ∷ is) =
    All (λ j. order_of order i.id ≤ order_of order j.id) is × IsSorted order is

insert_sorted-IsSorted :
    (order : Map Text ℕ) (i : Intent) (is : List Intent)
    → IsSorted order is
    → IsSorted order (insert_sorted order i is)
unfolding insert_sorted
insert_sorted-IsSorted order i [] h = (tt, tt)
insert_sorted-IsSorted order i (j ∷ js) (least, h) =
    elim (Bool-cases (ltb (order_of order j.id) (order_of order i.id))) [
      | inl later ↦ rw later (
        insert_sorted-All (λ k. order_of order j.id ≤ order_of order k.id) order i js (ground arith)
            least,
        insert_sorted-IsSorted order i js h,
      )
      | inr earlier ↦ rw earlier (
        (
          ground arith,
          All-map_lem _ (λ k. order_of order i.id ≤ order_of order k.id) js (λ k le. ground arith)
              least,
        ),
        (least, h),
      )
    ]

sort_by_order-IsSorted :
    (order : Map Text ℕ) (is : List Intent) → IsSorted order (sort_by_order order is)
unfolding sort_by_order
sort_by_order-IsSorted order [] = tt
sort_by_order-IsSorted order (i ∷ is) =
    insert_sorted-IsSorted order i (sort_by_order order is) (sort_by_order-IsSorted order is)

take-IsSorted :
    (order : Map Text ℕ) (n : ℕ) (is : List Intent) → IsSorted order is → IsSorted order (take n is)
take-IsSorted order zero is h = tt
take-IsSorted order (suc n) [] h = tt
take-IsSorted order (suc n) (i ∷ is) (least, h) =
    (All-take _ n is least, take-IsSorted order n is h)

length-insert_sorted :
    (order : Map Text ℕ) (i : Intent) (is : List Intent)
    → length (insert_sorted order i is) ≡ suc (length is)
unfolding insert_sorted
length-insert_sorted order i [] = refl
length-insert_sorted order i (j ∷ js) = ground (arith, length-insert_sorted order i js)

length-sort_by_order :
    (order : Map Text ℕ) (is : List Intent) → length (sort_by_order order is) ≡ length is
unfolding sort_by_order
length-sort_by_order order [] = refl
length-sort_by_order order (i ∷ is) =
    length-insert_sorted order i (sort_by_order order is) ∙ ap suc (length-sort_by_order order is)

length-pending_of : (m : Map Text Intent) → length (pending_of (values m)) ≡ pending_weight m
unfolding pending_of
length-pending_of [] = refl
length-pending_of ((k, i) ∷ m) = ground (arith, length-pending_of m)

length-cut :
    (limit : ℕ) (is : List Intent)
    → length (cut limit is) ≡ (if ltb 0 limit && ltb limit (length is) then limit else length is)
unfolding cut
length-cut limit is = ground (arith, length-take_eq limit is)

list_pending-eq :
    (limit : ℕ) (s : FileIntentStore)
    → list_pending limit s ≡ cut limit (sort_by_order s.order (pending_of (values s.intents)))
unfolding list_pending
list_pending-eq limit s = refl

length-list_pending :
    (limit : ℕ) (s : FileIntentStore)
    → length (list_pending limit s)
      ≡ (if ltb 0 limit && ltb limit (pending_count s) then limit else pending_count s)
unfolding pending_count
length-list_pending limit s =
    rw
      (
        list_pending-eq limit s,
        length-cut limit (sort_by_order s.order (pending_of (values s.intents))),
        length-sort_by_order s.order (pending_of (values s.intents)),
        length-pending_of s.intents,
      )
      refl

cut-keeps :
    (P : List Intent → Type 0) (limit : ℕ) (is : List Intent)
    → P is
    → P (take limit is)
    → P (cut limit is)
unfolding cut
cut-keeps P limit is h k = elim (Bool-cases (ltb 0 limit && ltb limit (length is))) [
  | inl over ↦ rw over k
  | inr within ↦ rw within h
]

-- When the entries of the store stand under the ids of their intents, ListPending answers intents
-- that are stored and pending only, each no later in the order of arrival than those behind it.
pub list_pending-IsListed :
    (limit : ℕ) (s : FileIntentStore)
    → IsKeyed s.intents
    → All (IsListed s.intents) (list_pending limit s) × IsSorted s.order (list_pending limit s)
list_pending-IsListed limit s keyed =
    let sorted = sort_by_order s.order (pending_of (values s.intents)) in
    let listed : All (IsListed s.intents) sorted =
      sort_by_order-All (IsListed s.intents) s.order (pending_of (values s.intents))
        (values-IsListed s.intents keyed) in
    let ordered : IsSorted s.order sorted =
      sort_by_order-IsSorted s.order (pending_of (values s.intents)) in
    rw (list_pending-eq limit s) (
      cut-keeps (All (IsListed s.intents)) limit sorted listed (All-take _ limit sorted listed),
      cut-keeps (IsSorted s.order) limit sorted ordered
          (take-IsSorted s.order limit sorted ordered),
    )
