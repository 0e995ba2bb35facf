-- ===== src/Simulator/Config/Overrides.antt =====
-- The templates that a simulation sees: the shared ones under the overrides of its own file.
use climate_control.Prelude.{
  ◌≡◌, refl, ◌∙◌, String, some, List, [], ◌∷◌, ◌++◌, string_eq, eq_iff, All, arith,
}
use climate_control.Prelude.Dict.{Dict, lookup, insert, lookup-insert}
use climate_control.Simulator.Config.{RawRoomTemplate}
use climate_control.Simulator.Config.Resolve.{add_templates, apply_room_overrides}

module _ {T : Type 0} (id : T → String) where
  -- No template of the list has the ID.
  abbrev Absent : String → List T → Type 0
  Absent key ts = All (λ t. ¬ (id t ≡ key)) ts

  lookup-add_templates-Absent :
      (key : String) (ts : List T) (m : Dict String T)
      → Absent key ts
      → lookup key (add_templates id ts m) ≡ lookup key m
  unfolding add_templates
  lookup-add_templates-Absent key [] m h = refl
  lookup-add_templates-Absent key (t ∷ ts) m (n, ns) =
      lookup-add_templates-Absent key ts (insert (id t) t m) ns
      ∙ ground (arith, n, lookup-insert (id t) key t m, eq_iff (id t) key)

  lookup-add_templates :
      (earlier : List T) (t : T) (later : List T) (m : Dict String T)
      → Absent (id t) later
      → lookup (id t) (add_templates id (earlier ++ (t ∷ later)) m) ≡ some t
  unfolding add_templates
  lookup-add_templates [] t later m h =
      lookup-add_templates-Absent (id t) later (insert (id t) t m) h
      ∙ ground (arith, lookup-insert (id t) (id t) t m, eq_iff (id t) (id t))
  lookup-add_templates (e ∷ es) t later m h = lookup-add_templates es t later (insert (id e) e m) h

module _ {R : Type 0} where
  apply_room_overrides_lem :
      (base : Dict String (RawRoomTemplate R)) (os : List (RawRoomTemplate R))
      → apply_room_overrides base os ≡ add_templates (λ t. t.id) os base
  unfolding apply_room_overrides add_templates
  apply_room_overrides_lem base [] = refl
  apply_room_overrides_lem base (o ∷ os) = refl

  -- Under a list of overrides a room template's ID stands for the last override with that ID, and an ID
  -- that no override has stands for what it stood for among the shared templates.
  lookup-apply_room_overrides :
      (base : Dict String (RawRoomTemplate R)) (earlier : List (RawRoomTemplate R))
      → (t : RawRoomTemplate R) (later : List (RawRoomTemplate R)) (key : String)
      → Absent (λ u. u.id) t.id later
      → Absent (λ u. u.id) key (earlier ++ (t ∷ later))
      → (lookup t.id (apply_room_overrides base (earlier ++ (t ∷ later))) ≡ some t)
        × (lookup key (apply_room_overrides base (earlier ++ (t ∷ later))) ≡ lookup key base)
  lookup-apply_room_overrides base earlier t later key last absent = (
    rw (apply_room_overrides_lem base (earlier ++ (t ∷ later)))
        (lookup-add_templates (λ u. u.id) earlier t later base last),
    rw (apply_room_overrides_lem base (earlier ++ (t ∷ later)))
        (lookup-add_templates-Absent (λ u. u.id) key (earlier ++ (t ∷ later)) base absent),
  )
