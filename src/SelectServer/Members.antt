-- ===== src/SelectServer/Members.antt =====
-- Who gets the broadcasts of the select server, and what its descriptor set keeps.
use c_basics.Prelude.{
  ℕ, zero, suc, ◌+◌, ◌≤◌, ◌<◌, ◌≡◌, ◌⊎◌, inl, inr, refl, sym, ap, ◌∙◌, Bool, true, false, not, ◌&&◌,
  List, [], ◌∷◌, ◌++◌, arith, ◌==◌, if◌then◌else◌, dec_lt, subst, ℕ_discrete,
}
use c_basics.SelectServer.Loop.{Event, sent, closed, State, broadcast, to_all, fd_setsize}

-- The messages that the events send to `d`.
unfoldable pub received : ℕ → List Event → List (List ℕ)
received d [] = []
received d (sent e m ∷ es) = if e == d then m ∷ received d es else received d es
received d (closed e ∷ es) = received d es

pub if-true : {A : Type 0} {b : Bool} (x y : A) → b ≡ true → (if b then x else y) ≡ x
if-true x y h = ap (λ c. if c then x else y) h

pub if-false : {A : Type 0} {b : Bool} (x y : A) → b ≡ false → (if b then x else y) ≡ y
if-false x y h = ap (λ c. if c then x else y) h

-- What the events close.
unfoldable pub closings : List Event → List ℕ
closings [] = []
closings (sent e m ∷ es) = closings es
closings (closed e ∷ es) = e ∷ closings es

pub received-append :
    (d : ℕ) (xs ys : List Event) → received d (xs ++ ys) ≡ received d xs ++ received d ys
unfolding received
received-append d [] ys = refl
received-append d (sent e m ∷ xs) ys = ground (arith, received-append d xs ys)
received-append d (closed e ∷ xs) ys = received-append d xs ys

pub closings-append : (xs ys : List Event) → closings (xs ++ ys) ≡ closings xs ++ closings ys
unfolding closings
closings-append [] ys = refl
closings-append (sent e m ∷ xs) ys = closings-append xs ys
closings-append (closed e ∷ xs) ys = ap (λ es. e ∷ es) (closings-append xs ys)

closings-broadcast :
    (master : ℕ → Bool) (listener sender : ℕ) (m : List ℕ) (left j : ℕ)
    → closings (broadcast master listener sender m left j) ≡ []
unfolding closings broadcast
closings-broadcast master listener sender m zero j = refl
closings-broadcast master listener sender m (suc left) j =
    ground (arith, closings-broadcast master listener sender m left (suc j))

pub closings-to_all :
    (listener sender : ℕ) (s : State) (m : List ℕ) → closings (to_all s listener sender m) ≡ []
unfolding to_all
closings-to_all listener sender s m = closings-broadcast s.master listener sender m (suc s.fd_max) 0

unfoldable pub addressed : (ℕ → Bool) → ℕ → ℕ → ℕ → Bool
addressed master listener sender d = master d && (not (d == listener) && not (d == sender))

received-broadcast_out :
    (master : ℕ → Bool) (listener sender : ℕ) (m : List ℕ) (left j d : ℕ)
    → (d < j) ⊎ (j + left ≤ d)
    → received d (broadcast master listener sender m left j) ≡ []
unfolding broadcast received
received-broadcast_out master listener sender m zero j d h = refl
received-broadcast_out master listener sender m (suc left) j d h =
    ground (arith, received-broadcast_out master listener sender m left (suc j) d (omega arith))

received-broadcast_self :
    (master : ℕ → Bool) (listener sender : ℕ) (m : List ℕ) (left d : ℕ)
    → received d (broadcast master listener sender m (suc left) d)
      ≡ (if addressed master listener sender d then m ∷ [] else [])
unfolding broadcast received addressed
received-broadcast_self master listener sender m left d =
    ground
      (arith, received-broadcast_out master listener sender m left (suc d) d (inl (omega arith)))

received-broadcast :
    (master : ℕ → Bool) (listener sender : ℕ) (m : List ℕ) (left j d : ℕ)
    → j ≤ d
    → d < j + left
    → received d (broadcast master listener sender m left j)
      ≡ (if addressed master listener sender d then m ∷ [] else [])
unfolding broadcast received
received-broadcast master listener sender m zero j d h k = absurd (omega arith)
received-broadcast master listener sender m (suc left) j d h k = elim (ℕ_discrete j d) [
  | yes e ↦
      subst
        (λ x.
          received x (broadcast master listener sender m (suc left) j)
          ≡ (if addressed master listener sender x then m ∷ [] else []))
        e (received-broadcast_self master listener sender m left j)
  | no ne ↦ ground (
    arith,
    received-broadcast master listener sender m left (suc j) d (omega (arith, ne))
        (omega (arith, k)),
  )
]

-- Descriptors in the set are at most `fd_max`, which the set can hold, and the listener is one.
pub record IsListening (listener : ℕ) (s : State) : Type 0 where
  pub bounded : (j : ℕ) → s.master j ≡ true → j ≤ s.fd_max
  pub fits : s.fd_max < fd_setsize
  pub listens : s.master listener ≡ true

not_addressed :
    (listener sender : ℕ) (s : State) (d : ℕ)
    → IsListening listener s
    → s.fd_max < d
    → addressed s.master listener sender d ≡ false
unfolding addressed
not_addressed listener sender s d h far = ground (arith, h.bounded d)

-- A broadcast sends its message once to each descriptor in the set but the listener and the sender,
-- and nothing to any other descriptor.
pub received-to_all :
    (listener sender : ℕ) (s : State) (m : List ℕ) (d : ℕ)
    → IsListening listener s
    → received d (to_all s listener sender m)
      ≡ (if addressed s.master listener sender d then m ∷ [] else [])
unfolding to_all
received-to_all listener sender s m d h = elim (dec_lt s.fd_max d) [
  | yes far ↦
      received-broadcast_out s.master listener sender m (suc s.fd_max) 0 d (inr (omega arith))
      ∙ sym (ap (λ b. if b then m ∷ [] else []) (not_addressed listener sender s d h far))
  | no near ↦
      received-broadcast s.master listener sender m (suc s.fd_max) 0 d (omega arith)
        (omega (arith, near))
]
