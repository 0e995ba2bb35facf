-- ===== src/Stream/Termination.antt =====
-- When `drainPending` ends.
use climate_control.Prelude.{
  ℕ, zero, suc, ◌<◌, ◌≤◌, ◌≡◌, refl, sym, subst, String, Option, some, List, [], ◌∷◌, string_eq,
  eq_refl, take, length, All, All-keep, All-take, arith,
}
use climate_control.Stream.{Message, Environment, Consumer, dispatch, dispatch_all, drain_pending}
use climate_control.Stream.Drain.{unacked, ReadsPending}

module _ {R : Type 0} (env : Environment R) where
  -- A further acknowledgement leaves no more entries, and one of the first entry fewer.
  unacked-le :
      (id : String) (acked : List String) (pending : List Message)
      → length (unacked pending (id ∷ acked)) ≤ length (unacked pending acked)
  unacked-le id acked [] = omega arith
  unacked-le id acked (m ∷ pending) = ground (arith, unacked-le id acked pending)

  unacked-lt :
      (x : Message) (xs : List Message) (acked : List String) (pending : List Message)
      → unacked pending acked ≡ x ∷ xs
      → length (unacked pending (x.id ∷ acked)) < length (unacked pending acked)
  unacked-lt x xs acked [] h = ground (arith, h)
  unacked-lt x xs acked (m ∷ pending) h =
      ground (arith, h, eq_refl m.id, unacked-le x.id acked pending, unacked-lt x xs acked pending)

  -- Every dispatch of the message acknowledges it.
  abbrev pub AlwaysAcks : Message → Type 0
  AlwaysAcks m = (c : Consumer R) → (dispatch env m c).acked ≡ m.id ∷ c.acked

  unacked-dispatch_all :
      (pending ms : List Message) (c : Consumer R)
      → All AlwaysAcks ms
      → length (unacked pending (dispatch_all env ms c).acked) ≤ length (unacked pending c.acked)
  unfolding dispatch_all
  unacked-dispatch_all pending [] c a = omega arith
  unacked-dispatch_all pending (m ∷ ms) c (h, a) =
      let first = unacked-le m.id c.acked pending in
      let rest = unacked-dispatch_all pending ms (dispatch env m c) a in
      omega (
        arith,
        rest,
        subst (λ l. length (unacked pending l) ≤ length (unacked pending c.acked)) (sym (h c))
            first,
      )

  -- Let every dispatch of every pending message acknowledge it, and let each read return the first
  -- ten entries that are not acknowledged. Then the drain ends with more fuel than there are such
  -- entries, and none is left.
  pub drain_pending-ends :
      (pending : List Message)
      → (read : Consumer R → Option (List Message)) → ReadsPending env read pending
      → All AlwaysAcks pending
      → (fuel : ℕ) (c : Consumer R) → length (unacked pending c.acked) < fuel
      → (c' : Consumer R) × (drain_pending env read fuel c ≡ some c')
        × (unacked pending c'.acked ≡ [])
  unfolding drain_pending dispatch_all
  drain_pending-ends pending read reads acks zero c h = absurd (omega (arith, h))
  drain_pending-ends pending read reads acks (suc fuel) c h =
      go (drain_pending-ends pending read reads acks fuel) (unacked pending c.acked) refl
    where
      go :
          ((b : Consumer R)
            → length (unacked pending b.acked) < fuel
            → (c' : Consumer R) × (drain_pending env read fuel b ≡ some c')
              × (unacked pending c'.acked ≡ []))
          → (u : List Message) → unacked pending c.acked ≡ u
          → (c' : Consumer R) × (drain_pending env read (suc fuel) c ≡ some c')
            × (unacked pending c'.acked ≡ [])
      go next [] e = (c, rw (drain_pending, reads c, e) refl, e)
      go next (x ∷ xs) e =
          let (first, rest) : All AlwaysAcks (take 10 (x ∷ xs)) =
            subst (λ l. All AlwaysAcks (take 10 l)) e
              (All-take _ 10 _ (All-keep _ _ pending acks)) in
          let fewer : length (unacked pending (dispatch env x c).acked)
              < length (unacked pending c.acked) =
            subst (λ l. length (unacked pending l) < length (unacked pending c.acked))
              (sym (first c)) (unacked-lt x xs c.acked pending e) in
          let le = unacked-dispatch_all pending (take 9 xs) (dispatch env x c) rest in
          rw (drain_pending, reads c, e)
            (next (dispatch_all env (take 9 xs) (dispatch env x c)) (omega (arith, h, fewer, le)))
