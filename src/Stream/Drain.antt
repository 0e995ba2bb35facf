-- ===== src/Stream/Drain.antt =====
-- `drainPending` and a message that no dispatch acknowledges. The loop reads the pending entries again
-- from the start.
use climate_control.Prelude.{
  ℕ, zero, suc, ◌≡◌, refl, ap, subst, String, Bool, true, false, not, ◌||◌, Option, none, some,
  List, [], ◌∷◌, ◌++◌, ◌==◌, string_eq, any, keep, take, All, All-append, All-keep, All-take,
  Bool-cases, ◌⊎◌, inl, inr, if◌then◌else◌, arith,
}
use climate_control.Prelude.Dict.{Dict}
use climate_control.Prelude.Result.{ok, err, Result-cases}
use climate_control.Cache.{Uuid}
use climate_control.Appdb.Reload.{reload_room, reload_device}
use climate_control.Stream.{
  Message, Environment, Consumer, DispatchError, FieldValue, extract_string, extract_room_id,
  on_room_created, reloaded_room, on_room_deleted, on_room_reload, on_device_changed,
  ack_unless_failed, dispatch_event, dispatch, dispatch_all, drain_pending,
}

-- The events that have a handler.
abbrev pub has_handler : String → Bool
has_handler event =
    event == "room_created"
    || event == "room_deleted"
    || event == "room_config_changed"
    || event == "desired_state_changed"
    || event == "schedule_changed"
    || event == "device_assigned"
    || event == "device_unassigned"

abbrev pub is_acked : List String → Message → Bool
is_acked acked m = any (λ id. id == m.id) acked

-- The pending entries that are not acknowledged yet.
abbrev pub unacked : List Message → List String → List Message
unacked pending acked = keep (λ m. not (is_acked acked m)) pending

module _ {R : Type 0} (env : Environment R) where
  -- The message has an event with a handler and no room_id that parses.
  pub record IsPoison (m : Message) : Type 0 where
    pub event : String
    pub has_event : extract_string m.values "event" ≡ ok event
    pub handled : has_handler event ≡ true
    pub error : DispatchError
    pub no_room : extract_room_id env m.values ≡ err error

  on_device_changed-poison :
      (values : Dict String FieldValue) (c : Consumer R) (e : DispatchError)
      → extract_room_id env values ≡ err e
      → (x : DispatchError) × (on_device_changed env values c ≡ (c, some x))
  unfolding on_device_changed
  on_device_changed-poison values c e h = elim (Result-cases (extract_string values "hw_id")) [
    | inl (hw_id, k) ↦ (e, ground arith)
    | inr (x, k) ↦ (x, ground arith)
  ]

  -- A poisoned message changes nothing and is not acknowledged.
  dispatch-poison : (m : Message) (c : Consumer R) → IsPoison m → dispatch env m c ≡ c
  unfolding dispatch dispatch_event on_room_created on_room_deleted on_room_reload ack_unless_failed
  dispatch-poison m c p =
      let (x, device) = on_device_changed-poison m.values c p.error p.no_room in
      ground (arith, p.has_event, p.handled, p.no_room)

  pub acked-reloaded_room :
      (id : Uuid) (c : Consumer R) → (reloaded_room env id c).0.acked ≡ c.acked
  unfolding reloaded_room
  acked-reloaded_room id c = ground arith

  pub acked-on_room_created :
      (v : Dict String FieldValue) (c : Consumer R) → (on_room_created env v c).0.acked ≡ c.acked
  unfolding on_room_created
  acked-on_room_created v c = elim (Result-cases (extract_room_id env v)) [
    | inl (id, e) ↦ elim (Result-cases (reload_room env.queries id c.store)) [
      | inl (s, k) ↦ rw (e, on_room_created, k)
      | inr (x, k) ↦ rw (e, on_room_created, k)
    ]
    | inr (x, e) ↦ rw (e, on_room_created)
  ]

  pub acked-on_room_deleted :
      (v : Dict String FieldValue) (c : Consumer R) → (on_room_deleted env v c).0.acked ≡ c.acked
  unfolding on_room_deleted
  acked-on_room_deleted v c = ground arith

  pub acked-on_room_reload :
      (v : Dict String FieldValue) (c : Consumer R) → (on_room_reload env v c).0.acked ≡ c.acked
  unfolding on_room_reload
  acked-on_room_reload v c = elim (Result-cases (extract_room_id env v)) [
    | inl (id, e) ↦ rw (e, on_room_reload) (acked-reloaded_room id c)
    | inr (x, e) ↦ rw (e, on_room_reload)
  ]

  pub acked-on_device_changed :
      (v : Dict String FieldValue) (c : Consumer R) → (on_device_changed env v c).0.acked ≡ c.acked
  unfolding on_device_changed
  acked-on_device_changed v c = elim (Result-cases (extract_string v "hw_id")) [
    | inr (x, e) ↦ rw (e, on_device_changed)
    | inl (h, e) ↦ elim (Result-cases (extract_room_id env v)) [
      | inr (x, k) ↦ rw (e, on_device_changed, k)
      | inl (id, k) ↦ elim (Result-cases (reload_device env.queries h c.store)) [
        | inr (x, l) ↦ rw (e, on_device_changed, k, l)
        | inl (s, l) ↦
            rw (e, on_device_changed, k, l) (acked-reloaded_room id (record c { store = s }))
      ]
    ]
  ]

  acked-ack_unless_failed :
      (id : String) (acked : List String) (r : Consumer R × Option DispatchError)
      → r.0.acked ≡ acked
      → ((ack_unless_failed env id r).acked ≡ acked)
        ⊎ ((ack_unless_failed env id r).acked ≡ id ∷ acked)
  unfolding ack_unless_failed
  acked-ack_unless_failed id acked (c, none) h = inr (ap (λ (l : List String). id ∷ l) h)
  acked-ack_unless_failed id acked (c, some e) h = inl h

  -- `acked` after a dispatch of a message: as before, or with its ID in front.
  abbrev AtMostAcks : String → List String → Consumer R → Type 0
  AtMostAcks id acked r = (r.acked ≡ acked) ⊎ (r.acked ≡ id ∷ acked)

  AtMostAcks-if :
      (b : Bool) (x y : Consumer R) (id : String) (acked : List String)
      → AtMostAcks id acked x
      → AtMostAcks id acked y
      → AtMostAcks id acked (if b then x else y)
  AtMostAcks-if true x y id acked h k = h
  AtMostAcks-if false x y id acked h k = k

  -- A dispatch acknowledges its own message or none.
  acked-dispatch : (m : Message) (c : Consumer R) → AtMostAcks m.id c.acked (dispatch env m c)
  unfolding dispatch dispatch_event
  acked-dispatch m c = elim (Result-cases (extract_string m.values "event")) [
    | inr (x, e) ↦ rw (e, dispatch) (inr refl)
    | inl (event, e) ↦
        rw (e, dispatch)
          (AtMostAcks-if (event == "room_created") _ _ _ _
            (acked-ack_unless_failed m.id c.acked (on_room_created env m.values c)
              (acked-on_room_created m.values c))
            (AtMostAcks-if (event == "room_deleted") _ _ _ _
              (acked-ack_unless_failed m.id c.acked (on_room_deleted env m.values c)
                (acked-on_room_deleted m.values c))
              (AtMostAcks-if
                (event == "room_config_changed"
                  || event == "desired_state_changed"
                  || event == "schedule_changed")
                _ _ _ _
                (acked-ack_unless_failed m.id c.acked (on_room_reload env m.values c)
                  (acked-on_room_reload m.values c))
                (AtMostAcks-if (event == "device_assigned" || event == "device_unassigned") _ _ _ _
                  (acked-ack_unless_failed m.id c.acked (on_device_changed env m.values c)
                    (acked-on_device_changed m.values c))
                  (inr refl)))))
  ]

  -- A message that is poisoned, or another one than `id`.
  abbrev pub IsHarmless : String → Message → Type 0
  IsHarmless id x = IsPoison x ⊎ ((x.id == id) ≡ false)

  is_acked-dispatch :
      (m x : Message) (c : Consumer R)
      → IsHarmless m.id x
      → is_acked c.acked m ≡ false
      → is_acked (dispatch env x c).acked m ≡ false
  is_acked-dispatch m x c (inl p) h = rw (dispatch-poison x c p) h
  is_acked-dispatch m x c (inr k) h = elim (acked-dispatch x c) [
    | inl e ↦ rw e h
    | inr e ↦ rw (e, k) h
  ]

  is_acked-dispatch_all :
      (m : Message) (ms : List Message) (c : Consumer R)
      → All (IsHarmless m.id) ms
      → is_acked c.acked m ≡ false
      → is_acked (dispatch_all env ms c).acked m ≡ false
  unfolding dispatch_all
  is_acked-dispatch_all m [] c a h = h
  is_acked-dispatch_all m (x ∷ ms) c (p, a) h =
      is_acked-dispatch_all m ms (dispatch env x c) a (is_acked-dispatch m x c p h)

  unacked-nonempty :
      (earlier later : List Message) (m : Message) (acked : List String)
      → is_acked acked m ≡ false
      → (x : Message) × (xs : List Message) × (unacked (earlier ++ m ∷ later) acked ≡ x ∷ xs)
  unacked-nonempty [] later m acked h = (m, unacked later acked, rw h refl)
  unacked-nonempty (y ∷ earlier) later m acked h = elim (Bool-cases (is_acked acked y)) [
    | inl e ↦ rw e (unacked-nonempty earlier later m acked h)
    | inr e ↦ rw e (y, unacked (earlier ++ m ∷ later) acked, refl)
  ]

  -- A read returns the first ten pending entries that are not acknowledged, as XREADGROUP from "0-0"
  -- with a count of ten is documented to.
  abbrev pub ReadsPending : (Consumer R → Option (List Message)) → List Message → Type 0
  ReadsPending read pending = (c : Consumer R) → read c ≡ some (take 10 (unacked pending c.acked))

  -- Let a pending message have an event with a handler and a room_id that is missing or does not parse,
  -- and let the IDs of the other pending messages differ from its ID. Then the drain, which reads the
  -- first ten entries that are not acknowledged, does not end, whatever the fuel: the message is never
  -- acknowledged and each read returns at least one entry.
  pub drain_pending-poison :
      (earlier later : List Message) (m : Message)
      → (read : Consumer R → Option (List Message)) → ReadsPending read (earlier ++ m ∷ later)
      → IsPoison m
      → All (λ x. (x.id == m.id) ≡ false) earlier
      → All (λ x. (x.id == m.id) ≡ false) later
      → (fuel : ℕ) (c : Consumer R) → is_acked c.acked m ≡ false
      → drain_pending env read fuel c ≡ none
  unfolding drain_pending
  drain_pending-poison earlier later m read reads p he hl zero c h = refl
  drain_pending-poison earlier later m read reads p he hl (suc fuel) c h =
      let harmless : All (IsHarmless m.id) (take 10 (unacked (earlier ++ m ∷ later) c.acked)) =
        All-take _ 10 _ (
          All-keep _ _ _ (
            All-append _ earlier (m ∷ later) (All-other earlier he) (inl p, All-other later hl))) in
      let (x, xs, e) = unacked-nonempty earlier later m c.acked h in
      rw (drain_pending, reads c, e)
        (drain_pending-poison earlier later m read reads p he hl fuel _ (
          is_acked-dispatch_all m _ c (subst (λ l. All (IsHarmless m.id) (take 10 l)) e harmless)
            h))
    where
      All-other :
          (xs : List Message) → All (λ x. (x.id == m.id) ≡ false) xs → All (IsHarmless m.id) xs
      All-other [] a = tt
      All-other (x ∷ xs) (h, a) = (inr h, All-other xs a)
