-- ===== src/Heap/Chain.antt =====
-- `linkedlist` of LinkedList.c.
use c_basics.Prelude.{
  ℕ, zero, suc, ◌≤◌, ◌≡◌, ◌≢◌, refl, Option, none, some, List, [], ◌∷◌, arith, ◌==◌, if◌then◌else◌,
  length, ◌>>=◌, bind-some,
}

-- `struct LinkedList`; a pointer is NULL or an address.
pub record Node : Type 0 where
  pub text : List ℕ
  pub next : Option ℕ

-- The nodes that are allocated, by address.
abbrev pub Nodes : Type 0
Nodes = ℕ → Option Node

abbrev pub put : Nodes → ℕ → Option Node → Nodes
put m p node q = if q == p then node else m q

-- free(3) of a block that is not allocated is a fault.
unfoldable pub free : Nodes → ℕ → Option Nodes
free m p = do node ← m p; some (put m p none)

-- The loop over `current`: the texts that it prints. `none` is a fault, or no fuel left.
unfoldable pub traverse : ℕ → Nodes → Option ℕ → Option (List (List ℕ))
traverse fuel m none = some []
traverse zero m (some p) = none
traverse (suc fuel) m (some p) = do
  node ← m p
  texts ← traverse fuel m node.next
  some (node.text ∷ texts)

-- "Dustyn", "Jim" and "head".
abbrev pub dustyn : List ℕ
dustyn = 68 ∷ 117 ∷ 115 ∷ 116 ∷ 121 ∷ 110 ∷ []

abbrev pub jim : List ℕ
jim = 74 ∷ 105 ∷ 109 ∷ []

abbrev pub head_text : List ℕ
head_text = 104 ∷ 101 ∷ 97 ∷ 100 ∷ []

-- The arguments: the nodes before, and what malloc(3) answers for `first`, `second` and `head`,
-- whose NULL is not tested. free(3) of `current` does nothing, as it is NULL by then. Fuel of three
-- is enough.
unfoldable pub linkedlist : Nodes → Option ℕ → Option ℕ → Option ℕ → Option (List (List ℕ) × Nodes)
unfolding free traverse
linkedlist m (some first) (some second) (some head) =
    let linked =
      put
        (put (put m first (some (record { text = dustyn; next = some second }))) second
          (some (record { text = jim; next = none })))
        head (some (record { text = head_text; next = some first })) in
    do
      texts ← traverse 3 linked (some head)
      m₁ ← free linked first
      m₂ ← free m₁ second
      m₃ ← free m₂ head
      some (texts, m₃)
linkedlist m first second head = none

-- From a pointer the `next` fields lead through nodes with these texts to NULL.
pub data Chain (m : Nodes) : Option ℕ → List (List ℕ) → Type 0 where
  end : Chain m none []
  link :
      {p : ℕ} {node : Node} {texts : List (List ℕ)}
      → m p ≡ some node
      → Chain m node.next texts
      → Chain m (some p) (node.text ∷ texts)

-- With fuel for its nodes the loop prints the texts of a chain in their order, and ends.
pub traverse-Chain :
    {m : Nodes} {p : Option ℕ} {texts : List (List ℕ)} (fuel : ℕ)
    → Chain m p texts
    → length texts ≤ fuel
    → traverse fuel m p ≡ some texts
unfolding traverse
traverse-Chain fuel end h = refl
traverse-Chain zero (link e c) h = absurd (omega (arith, h))
traverse-Chain {m} (suc fuel) (link {p} {node} {texts} e c) h = bind-some (m p) node _ _ e (
    bind-some (traverse fuel m node.next) texts _ _ (traverse-Chain fuel c (omega (arith, h))) refl)

free-allocated :
    (m : Nodes) (p : ℕ) (node : Node) → m p ≡ some node → free m p ≡ some (put m p none)
unfolding free
free-allocated m p node e = bind-some (m p) node _ _ e refl

missing :
    (m : Nodes) (a b : Option ℕ)
    → (linkedlist m none a b ≡ none)
      × (linkedlist m a none b ≡ none)
      × (linkedlist m a b none ≡ none)
unfolding linkedlist
missing m none none = (refl, refl, refl)
missing m none (some b) = (refl, refl, refl)
missing m (some a) none = (refl, refl, refl)
missing m (some a) (some b) = (refl, refl, refl)

abbrev first_node : ℕ → Node
first_node second = record { text = dustyn; next = some second }

abbrev second_node : Node
second_node = record { text = jim; next = none }

abbrev head_node : ℕ → Node
head_node first = record { text = head_text; next = some first }

module _ (m : Nodes) (first second head : ℕ) where
  abbrev linked : Nodes
  linked =
      put (put (put m first (some (first_node second))) second (some second_node)) head
        (some (head_node first))

  abbrev left : Nodes
  left = put (put (put linked first none) second none) head none

module _ (m : Nodes) (first second head : ℕ) (apart : first ≢ second) (apart' : first ≢ head)
    (apart'' : second ≢ head) where
  linked-first : (linked m first second head) first ≡ some (first_node second)
  linked-first = ground (arith, apart, apart')

  linked-second : (linked m first second head) second ≡ some second_node
  linked-second = ground (arith, apart'')

  linked-head : (linked m first second head) head ≡ some (head_node first)
  linked-head = ground arith

  linked-Chain : Chain (linked m first second head) (some head) (head_text ∷ dustyn ∷ jim ∷ [])
  linked-Chain = link linked-head (link linked-first (link linked-second end))

  frees :
      (texts : List (List ℕ))
      → (free (linked m first second head) first >>= (λ m₁.
          free m₁ second
          >>= (λ m₂. ◌>>=◌ {B = List (List ℕ) × Nodes} (free m₂ head) (λ m₃. some (texts, m₃)))))
        ≡ some (texts, (left m first second head))
  frees texts =
      bind-some (free (linked m first second head) first)
        (put (linked m first second head) first none) _ _
        (free-allocated (linked m first second head) first (first_node second) linked-first)
        (bind-some (free (put (linked m first second head) first none) second)
          (put (put (linked m first second head) first none) second none) _ _
          (free-allocated (put (linked m first second head) first none) second second_node
            (ground (arith, apart, linked-second)))
          (bind-some (free (put (put (linked m first second head) first none) second none) head)
            (left m first second head) _ _
            (free-allocated (put (put (linked m first second head) first none) second none) head
              (head_node first) (ground (arith, apart', apart'', linked-head)))
            refl))

  returns :
      linkedlist m (some first) (some second) (some head)
      ≡ some (head_text ∷ dustyn ∷ jim ∷ [], (left m first second head))
  unfolding linkedlist
  returns =
      bind-some (traverse 3 (linked m first second head) (some head))
        (head_text ∷ dustyn ∷ jim ∷ []) _ _ (traverse-Chain 3 linked-Chain (omega arith))
        (frees (head_text ∷ dustyn ∷ jim ∷ []))

-- With three addresses that are apart, linkedlist prints "head", "Dustyn" and "Jim", and what it
-- leaves allocated is what was allocated before, less these three; without one of them it faults.
pub linkedlist-prints :
    (m : Nodes) (first second head : ℕ) (other another : Option ℕ)
    → first ≢ second
    → first ≢ head
    → second ≢ head
    → ((left : Nodes) × (linkedlist m (some first) (some second) (some head)
          ≡ some (head_text ∷ dustyn ∷ jim ∷ [], left))
        × ((q : ℕ)
            → left q ≡ (
                if q == first
                then none
                else if q == second
                then none
                else if q == head
                then none
                else m q)))
      × (linkedlist m none other another ≡ none)
      × (linkedlist m other none another ≡ none)
      × (linkedlist m other another none ≡ none)
linkedlist-prints m first second head other another apart apart' apart'' = (
  (left m first second head, returns m first second head apart apart' apart'', λ q. ground arith),
  (missing m other another).0,
  (missing m other another).1,
  (missing m other another).2,
)
