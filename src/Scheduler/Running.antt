-- ===== src/Scheduler/Running.antt =====
-- Which goroutines run, the invariant that ties them to the active rooms, and what a cancelled and a
-- fresh context do to their number.
use climate_control.Prelude.{
  ℕ, ◌+◌, ◌<◌, ◌≤◌, ◌≡◌, refl, Bool, true, false, not, ◌&&◌, Option, none, some, List, [], ◌∷◌,
  ◌==◌, nat_eq, eq_iff, any, keep, length, All, Bool-cases, if◌then◌else◌, arith, inl, inr,
}
use climate_control.Prelude.Dict.{
  Dict, lookup, insert, erase, contains, lookup-insert, lookup-erase, contains-lookup,
}
use climate_control.Time.{Duration}
use climate_control.Cache.{Uuid}
use climate_control.Scheduler.{
  Loop, control_loop, cache_refresh, Goroutine, Scheduler, cancel_existing,
}

abbrev pub is_cancelled : ℕ → List ℕ → Bool
is_cancelled c cs = any (λ d. d == c) cs

abbrev pub same_loop : Loop → Loop → Bool
same_loop control_loop control_loop = true
same_loop cache_refresh cache_refresh = true
same_loop _ _ = false

-- The goroutine is the room's loop of the kind, and its context is not cancelled.
abbrev pub runs : Loop → Uuid → List ℕ → Goroutine → Bool
runs l id cs g = same_loop l g.loop && g.room_id == id && not (is_cancelled g.ctx cs)

abbrev pub running : Loop → Uuid → List ℕ → List Goroutine → ℕ
running l id cs gs = length (keep (runs l id cs) gs)

-- What each launched goroutine satisfies.
abbrev pub Fits : Dict Uuid ℕ → List ℕ → ℕ → Goroutine → Type 0
Fits active cs next g =
    (g.ctx < next)
    × (is_cancelled g.ctx cs ≡ false → lookup g.room_id active ≡ some g.ctx)
    × ((j : Uuid) → lookup j active ≡ some g.ctx → g.room_id ≡ j)

pub record Inv (s : Scheduler) : Type 0 where
  pub fits : All (Fits s.active_rooms s.cancelled s.next_ctx) s.goroutines
  pub fresh_cancelled : All (λ c. c < s.next_ctx) s.cancelled
  pub fresh_active : (j : Uuid) (c : ℕ) → lookup j s.active_rooms ≡ some c → c < s.next_ctx
  pub counts :
      (l : Loop) (j : Uuid)
      → running l j s.cancelled s.goroutines ≡ (if contains j s.active_rooms then 1 else 0)

pub below-not_cancelled :
    (c n : ℕ) (cs : List ℕ) → All (λ d. d < n) cs → n ≤ c → is_cancelled c cs ≡ false
below-not_cancelled c n [] h le = refl
below-not_cancelled c n (d ∷ cs) h le = ground (arith, below-not_cancelled c n cs)

-- Cancelling the context of another room stops none of this room's goroutines.
running-cancel_other :
    (l : Loop) (j id : Uuid) (c n : ℕ) (active : Dict Uuid ℕ) (cs : List ℕ) (gs : List Goroutine)
    → All (Fits active cs n) gs
    → lookup id active ≡ some c
    → (id == j) ≡ false
    → running l j (c ∷ cs) gs ≡ running l j cs gs
running-cancel_other l j id c n active cs [] fits at ne = refl
running-cancel_other l j id c n active cs (g ∷ gs) fits at ne =
    ground (arith, running-cancel_other l j id c n active cs gs, fits.0.2 id, eq_iff id j)

-- Cancelling the context of a room stops all of its goroutines.
running-cancel_self :
    (l : Loop) (id : Uuid) (c n : ℕ) (active : Dict Uuid ℕ) (cs : List ℕ) (gs : List Goroutine)
    → All (Fits active cs n) gs
    → lookup id active ≡ some c
    → running l id (c ∷ cs) gs ≡ 0
running-cancel_self l id c n active cs [] fits at = refl
running-cancel_self l id c n active cs (g ∷ gs) fits at =
    ground (arith, running-cancel_self l id c n active cs gs)

module _ (id : Uuid) (n : ℕ) (active : Dict Uuid ℕ) (cs : List ℕ) where
  Fits-start :
      (o : Option ℕ) (g : Goroutine)
      → lookup id active ≡ o
      → Fits active cs n g
      → Fits (insert id n active) (cancel_existing o cs) (n + 1) g
  unfolding cancel_existing
  Fits-start o g at (below, live, owner) = (
    omega arith,
    (λ r. ground (arith, lookup-insert id g.room_id n active, eq_iff id g.room_id)),
    (λ j e. ground (arith, lookup-insert id j n active, owner j)),
  )

  pub All-Fits-start :
      (o : Option ℕ) (gs : List Goroutine)
      → lookup id active ≡ o
      → All (Fits active cs n) gs
      → All (Fits (insert id n active) (cancel_existing o cs) (n + 1)) gs
  All-Fits-start o [] at h = tt
  All-Fits-start o (g ∷ gs) at h = (Fits-start o g at h.0, All-Fits-start o gs at h.1)

  pub Fits-new :
      (o : Option ℕ) (l : Loop) (stagger : Duration)
      → ((j : Uuid) (c : ℕ) → lookup j active ≡ some c → c < n)
      → Fits
          (insert id n active)
          (cancel_existing o cs)
          (n + 1)
          (record { loop = l; room_id = id; ctx = n; stagger = stagger })
  Fits-new o l stagger fresh = (
    omega arith,
    (λ r. ground (arith, lookup-insert id id n active, eq_iff id id)),
    (λ j e. ground (arith, lookup-insert id j n active, eq_iff id j, fresh j n)),
  )

  Fits-remove :
      (c : ℕ) (g : Goroutine)
      → lookup id active ≡ some c
      → Fits active cs n g
      → Fits (erase id active) (c ∷ cs) n g
  Fits-remove c g at (below, live, owner) = (
    below,
    (λ r. ground (arith, lookup-erase id g.room_id active, eq_iff id g.room_id)),
    (λ j e. ground (arith, lookup-erase id j active, owner j)),
  )

  pub All-Fits-remove :
      (c : ℕ) (gs : List Goroutine)
      → lookup id active ≡ some c
      → All (Fits active cs n) gs
      → All (Fits (erase id active) (c ∷ cs) n) gs
  All-Fits-remove c [] at h = tt
  All-Fits-remove c (g ∷ gs) at h = (Fits-remove c g at h.0, All-Fits-remove c gs at h.1)

-- The goroutines of a room that run once its old context is cancelled: none, if the room is the one
-- that is started or removed.
pub running-old :
    (s : Scheduler) (l : Loop) (id j : Uuid) (o : Option ℕ)
    → Inv s
    → lookup id s.active_rooms ≡ o
    → running l j (cancel_existing o s.cancelled) s.goroutines
      ≡ (if id == j then 0 else running l j s.cancelled s.goroutines)
unfolding cancel_existing
running-old s l id j none inv at = elim (Bool-cases (id == j)) [
  | inl same ↦
      let e = (eq_iff id j).0 same in
      rw (same, inv.counts l j, contains-lookup j s.active_rooms, ← e, at)
  | inr ne ↦ rw ne
]
running-old s l id j (some c) inv at = elim (Bool-cases (id == j)) [
  | inl same ↦
      let e = (eq_iff id j).0 same in
      rw (same, ← e)
        (running-cancel_self l id c s.next_ctx s.active_rooms s.cancelled s.goroutines inv.fits at)
  | inr ne ↦ rw ne (
      running-cancel_other l j id c s.next_ctx s.active_rooms s.cancelled s.goroutines inv.fits at
        ne)
]

pub cancel_existing-below :
    (s : Scheduler) (id : Uuid) (o : Option ℕ)
    → Inv s
    → lookup id s.active_rooms ≡ o
    → All (λ c. c < s.next_ctx) (cancel_existing o s.cancelled)
unfolding cancel_existing
cancel_existing-below s id none inv at = inv.fresh_cancelled
cancel_existing-below s id (some c) inv at = (inv.fresh_active id c at, inv.fresh_cancelled)

pub All-lt-suc : (n : ℕ) (cs : List ℕ) → All (λ c. c < n) cs → All (λ c. c < n + 1) cs
All-lt-suc n [] h = tt
All-lt-suc n (c ∷ cs) h = (omega arith, All-lt-suc n cs h.1)

-- The two goroutines of a start are one of each kind.
pub running-started :
    (l : Loop) (id j : Uuid) (n m : ℕ) (a b : Duration) (cs : List ℕ) (gs : List Goroutine)
    → is_cancelled n cs ≡ false
    → running l j cs gs ≡ (if id == j then 0 else m)
    → running l j cs (
        record { loop = control_loop; room_id = id; ctx = n; stagger = a }
        ∷ record { loop = cache_refresh; room_id = id; ctx = n; stagger = b }
        ∷ gs)
      ≡ (if id == j then 1 else m)
running-started control_loop id j n m a b cs gs live old = ground arith
running-started cache_refresh id j n m a b cs gs live old = ground arith
