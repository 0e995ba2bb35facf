-- ===== src/Appdb/Warm/Grouping.antt =====
-- The maps that rows are sorted into: what a key holds.
use climate_control.Prelude.{
  ◌≡◌, refl, ◌∙◌, ap, sym, Bool, false, Option, none, some, List, [], ◌∷◌, ◌++◌, keep, ◌==◌, nat_eq,
  eq_iff, Bool-cases, inl, inr, if◌then◌else◌, arith,
}
use climate_control.Prelude.Dict.{Dict, lookup, insert, lookup-insert}
use climate_control.Cache.{Uuid, slice_at}
use climate_control.Appdb.{DeviceRow, ActuatorRow}
use climate_control.Appdb.Reload.{group_actuators}
use climate_control.Appdb.Warm.{group_by, index_by, add_to_room, group_devices}

append_assoc : {A : Type 0} (xs ys zs : List A) → (xs ++ ys) ++ zs ≡ xs ++ (ys ++ zs)
append_assoc [] ys zs = refl
append_assoc (x ∷ xs) ys zs = ap (λ l. x ∷ l) (append_assoc xs ys zs)

append_nil : {A : Type 0} (xs : List A) → xs ++ [] ≡ xs
append_nil [] = refl
append_nil (x ∷ xs) = ap (λ l. x ∷ l) (append_nil xs)

slice_at-insert :
    {A : Type 0} (k j : Uuid) (xs : List A) (m : Dict Uuid (List A))
    → slice_at j (insert k xs m) ≡ (if k == j then xs else slice_at j m)
unfolding slice_at
slice_at-insert k j xs m = ground (arith, lookup-insert k j xs m)

-- One more element of a group.
slice_at-append :
    {A : Type 0} (k j : Uuid) (x : A) (m : Dict Uuid (List A)) (rest : List A)
    → slice_at j (insert k (slice_at k m ++ x ∷ []) m) ++ rest
      ≡ slice_at j m ++ (if k == j then x ∷ rest else rest)
slice_at-append k j x m rest = elim (Bool-cases (k == j)) [
  | inl e ↦
      rw (slice_at-insert k j (slice_at k m ++ x ∷ []) m, e)
        (append_assoc (slice_at k m) (x ∷ []) rest
          ∙ ap (λ i. slice_at i m ++ x ∷ rest) ((eq_iff k j).0 e))
  | inr e ↦ rw (slice_at-insert k j (slice_at k m ++ x ∷ []) m, e) refl
]

slice_at-group_by_from :
    {A : Type 0} (key : A → Uuid) (xs : List A) (m : Dict Uuid (List A)) (j : Uuid)
    → slice_at j (group_by key xs m) ≡ slice_at j m ++ keep (λ x. key x == j) xs
unfolding group_by
slice_at-group_by_from key [] m j = sym (append_nil (slice_at j m))
slice_at-group_by_from key (x ∷ xs) m j =
    slice_at-group_by_from key xs (insert (key x) (slice_at (key x) m ++ x ∷ []) m) j
    ∙ slice_at-append (key x) j x m (keep (λ x. key x == j) xs)

-- A group holds the elements with its key, in their order.
pub slice_at-group_by :
    {A : Type 0} (key : A → Uuid) (xs : List A) (j : Uuid)
    → slice_at j (group_by key xs []) ≡ keep (λ x. key x == j) xs
unfolding slice_at lookup
slice_at-group_by key xs j = slice_at-group_by_from key xs [] j

pub group_actuators_lem :
    (xs : List ActuatorRow) (m : Dict Uuid (List ActuatorRow))
    → group_actuators xs m ≡ group_by (λ a. a.device_id) xs m
unfolding group_actuators group_by
group_actuators_lem [] m = refl
group_actuators_lem (x ∷ xs) m = group_actuators_lem xs _

-- The device is in the room.
abbrev pub in_room : Uuid → Option Uuid → Bool
in_room j none = false
in_room j (some id) = id == j

abbrev pub is_in_room : Uuid → DeviceRow → Bool
is_in_room j d = in_room j d.room_id

slice_at-add_to_room :
    (o : Option Uuid) (d : DeviceRow) (m : Dict Uuid (List DeviceRow)) (j : Uuid)
    → (rest : List DeviceRow)
    → slice_at j (add_to_room o d m) ++ rest
      ≡ slice_at j m ++ (if in_room j o then d ∷ rest else rest)
unfolding add_to_room
slice_at-add_to_room none d m j rest = refl
slice_at-add_to_room (some id) d m j rest = slice_at-append id j d m rest

slice_at-group_devices_from :
    (ds : List DeviceRow) (m : Dict Uuid (List DeviceRow)) (j : Uuid)
    → slice_at j (group_devices ds m) ≡ slice_at j m ++ keep (is_in_room j) ds
unfolding group_devices
slice_at-group_devices_from [] m j = sym (append_nil (slice_at j m))
slice_at-group_devices_from (d ∷ ds) m j =
    slice_at-group_devices_from ds (add_to_room d.room_id d m) j
    ∙ slice_at-add_to_room d.room_id d m j (keep (is_in_room j) ds)

pub slice_at-group_devices :
    (ds : List DeviceRow) (j : Uuid) → slice_at j (group_devices ds []) ≡ keep (is_in_room j) ds
unfolding slice_at lookup
slice_at-group_devices ds j = slice_at-group_devices_from ds [] j

lookup-index_by_absent :
    {A : Type 0} (key : A → Uuid) (xs : List A) (m : Dict Uuid A) (j : Uuid)
    → keep (λ x. key x == j) xs ≡ []
    → lookup j (index_by key xs m) ≡ lookup j m
unfolding index_by
lookup-index_by_absent key [] m j h = refl
lookup-index_by_absent key (x ∷ xs) m j h = elim (Bool-cases (key x == j)) [
  | inl e ↦ absurd (ground (arith, h, e))
  | inr e ↦
      lookup-index_by_absent key xs (insert (key x) x m) j (ground (arith, h, e))
      ∙ (lookup-insert (key x) j x m ∙ ap (λ b. if b then some x else lookup j m) e)
]

-- An index holds the one element with the key.
pub lookup-index_by :
    {A : Type 0} (key : A → Uuid) (xs : List A) (m : Dict Uuid A) (j : Uuid) (y : A)
    → keep (λ x. key x == j) xs ≡ y ∷ []
    → lookup j (index_by key xs m) ≡ some y
unfolding index_by
lookup-index_by key [] m j y h = absurd (ground (arith, h))
lookup-index_by key (x ∷ xs) m j y h = elim (Bool-cases (key x == j)) [
  | inr e ↦ lookup-index_by key xs (insert (key x) x m) j y (ground (arith, h, e))
  | inl e ↦
      lookup-index_by_absent key xs (insert (key x) x m) j (ground (arith, h, e))
      ∙ (lookup-insert (key x) j x m
          ∙ (ap (λ b. if b then some x else lookup j m) e ∙ ground (arith, h, e)))
]
