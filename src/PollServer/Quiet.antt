-- ===== src/PollServer/Quiet.antt =====
-- Turns of the poll server in which a single client has something to say.
use c_basics.Prelude.{
  ℕ, zero, suc, ◌+◌, ◌≤◌, ◌<◌, ◌≡◌, ◌≢◌, inl, inr, refl, ap, ◌∙◌, true, false, some, List, [], ◌∷◌,
  arith, bit_and, ltb, ◌==◌, if◌then◌else◌, get_elem?, Bool-cases, append-nil, dec_lt, replicate,
  subst,
}
use c_basics.Kernel.{got, occurs}
use c_basics.PollServer.Table.{PollFd, Table, active, pollin}
use c_basics.PollServer.Refine.{Fits, get_elem?-lt}
use c_basics.PollServer.Round.{Event, sent, Answers, broadcast, serve_client, handle, visit, walk}
use c_basics.PollServer.Walk.{walk-suc}

-- Of the slots in use only `i` has POLLIN set, with the descriptor `sender`.
pub record OnlyAt (i sender : ℕ) (slots : List PollFd) : Type 0 where
  pub revents : ℕ
  pub events : ℕ
  pub here : get_elem? slots i ≡ some (record { fd = sender; events = events; revents = revents })
  pub ready : (bit_and revents pollin == 0) ≡ false
  pub quiet :
      (j : ℕ) (p : PollFd)
      → j ≢ i
      → get_elem? slots j ≡ some p
      → (bit_and p.revents pollin == 0) ≡ true

-- What is sent to a descriptor, in order.
unfoldable pub delivered : ℕ → List Event → List (List ℕ)
delivered d [] = []
delivered d (sent e m ∷ events) = if e == d then m ∷ delivered d events else delivered d events
delivered d (_ ∷ events) = delivered d events

pub delivered-broadcast :
    (listener sender : ℕ) (m : List ℕ) (dests : List ℕ) (d : ℕ)
    → d ≢ listener
    → d ≢ sender
    → delivered d (broadcast listener sender m dests) ≡ replicate (occurs d dests) m
unfolding broadcast occurs delivered
delivered-broadcast listener sender m [] d other other' = refl
delivered-broadcast listener sender m (x ∷ xs) d other other' =
    let ih = delivered-broadcast listener sender m xs d other other' in
    elim (Bool-cases (x == d)) [
      | inl same ↦
          let more : suc (occurs d xs) ≡ (if x == d then 1 else 0) + occurs d xs =
            ground (arith, same) in
          ground (arith, same, ih, ap (λ n. replicate n m) more)
      | inr apart ↦
          let none_more : occurs d xs ≡ (if x == d then 1 else 0) + occurs d xs =
            ground (arith, apart) in
          ground (arith, apart, ih, ap (λ n. replicate n m) none_more)
    ]

module _ (a : Answers) (listener i sender : ℕ) (t : Table) (fits : Fits t)
    (only : OnlyAt i sender t.slots) where
  visit-quiet : (j : ℕ) → j ≢ i → j < t.fd_count → visit a listener j t ≡ some (t, [])
  unfolding visit handle
  visit-quiet j ne inside =
      let (p, at) = get_elem?-lt t.slots j (omega (arith, fits.full, fits.room, inside)) in
      rw (at, visit) (rw (only.quiet j p ne at) refl)

  -- Behind the ready slot the walk does nothing.
  walk-quiet :
      (fuel j : ℕ)
      → i < j
      → j ≤ t.fd_count
      → t.fd_count < j + fuel
      → walk a listener fuel j t ≡ some (t, [])
  walk-quiet zero j past inside enough = absurd (omega (arith, inside, enough))
  walk-quiet (suc fuel) j past inside enough = elim (dec_lt j t.fd_count) [
    | yes more ↦
        walk-suc a listener fuel j t t t [] [] more
          (visit-quiet j (λ e. omega (arith, e, past)) more)
          (walk-quiet fuel (suc j) (omega arith) more (omega (arith, enough)))
    | no done ↦ let stop : ltb j t.fd_count ≡ false = ground arith in unfold walk in rw stop refl
  ]

  module _ (b : ℕ) (bs : List ℕ) (client : sender ≢ listener) (says : a.recv i ≡ got (b ∷ bs)) where
    abbrev passed_on : List Event
    passed_on = broadcast listener sender (b ∷ bs) (active t)

    visit-ready : i < t.fd_count → visit a listener i t ≡ some (t, passed_on)
    unfolding visit handle serve_client
    visit-ready inside =
        let other : (sender == listener) ≡ false = ground (arith, client) in
        rw (only.here, visit) (rw (only.ready, other, says) refl)

    -- Up to the ready slot, with it and behind it.
    pub walk-only :
        (fuel j : ℕ)
        → j ≤ i
        → i < t.fd_count
        → t.fd_count < j + fuel
        → walk a listener fuel j t ≡ some (t, passed_on)
    walk-only zero j before inside enough = absurd (omega (arith, before, inside, enough))
    walk-only (suc fuel) j before inside enough = elim (dec_lt j i) [
      | yes more ↦
          walk-suc a listener fuel j t t t [] passed_on (omega arith)
            (visit-quiet j (λ e. omega (arith, e, more)) (omega arith))
            (walk-only fuel (suc j) more inside (omega (arith, enough)))
      | no reached ↦
          let at : i ≡ j = omega (arith, reached, before) in
          walk-suc a listener fuel j t t t passed_on [] (omega arith)
            (subst (λ k. visit a listener k t ≡ some (t, passed_on)) at (visit-ready inside))
            (walk-quiet fuel (suc j) (omega arith) (omega arith) (omega (arith, enough)))
          ∙ ap (λ es. some (t, es)) (append-nil passed_on)
    ]
