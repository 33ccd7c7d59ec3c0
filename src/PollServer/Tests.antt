-- ===== src/PollServer/Tests.antt =====
-- Runs of the poll server at concrete inputs.
use c_basics.Prelude.{
  ℕ, zero, suc, ◌≤◌, ◌≡◌, ◌⊎◌, refl, sym, ap, Option, none, some, List, [], ◌∷◌, arith, length,
  take, subst, some-injective,
}
use c_basics.Kernel.{got, occurs}
use c_basics.PollServer.Table.{PollFd, Table, active, pollin, add_to_pfds, del_pfds}
use c_basics.PollServer.Refine.{
  KeepsContents, fds, Fits, Added, Deleted, add_to_pfds-Added, del_pfds-Deleted,
}
use c_basics.PollServer.Round.{
  sent, Answers, broadcast, serve_client, handle, visit, walk, turn, start, install,
}
use c_basics.PollServer.Serving.{IsServing}
use c_basics.PollServer.Walk.{IsKernel, Walks, walk-Walks}
use c_basics.PollServer.Run.{KeepsFds, Turns, turn-Turns, booted, Reach-IsServing}

abbrev slot : ℕ → ℕ → PollFd
slot fd revents = record { fd = fd; events = pollin; revents = revents }

abbrev empty_slots : ℕ → List PollFd
empty_slots zero = []
empty_slots (suc n) = slot 0 0 ∷ empty_slots n

-- A realloc(3) that always succeeds and pads with zeroes.
abbrev pad : List PollFd → ℕ → List PollFd
pad [] n = empty_slots n
pad (x ∷ xs) zero = x ∷ xs
pad (x ∷ xs) (suc n) = x ∷ pad xs n

abbrev zeroing : List PollFd → ℕ → Option (List PollFd)
zeroing xs n = some (pad xs n)

length-empty_slots : (n : ℕ) → length (empty_slots n) ≡ n
length-empty_slots zero = refl
length-empty_slots (suc n) = ap suc (length-empty_slots n)

pad-keeps :
    (xs : List PollFd) (n : ℕ)
    → length xs ≤ n
    → (length (pad xs n) ≡ n) × (take (length xs) (pad xs n) ≡ xs)
pad-keeps [] n h = (length-empty_slots n, refl)
pad-keeps (x ∷ xs) zero h = absurd (omega arith)
pad-keeps (x ∷ xs) (suc n) h =
    let (a, b) = pad-keeps xs n (omega arith) in (ap suc a, ap (λ l. x ∷ l) b)

zeroing-KeepsContents : KeepsContents zeroing
zeroing-KeepsContents xs n ys e h =
    subst (λ zs. (length zs ≡ n) × (take (length xs) zs ≡ xs)) (some-injective _ _ e)
      (pad-keeps xs n h)

-- The listener 3 and the clients 4 and 5, with a message from 5; memory for four.
abbrev chat : Table
chat = record { slots = slot 3 0 ∷ slot 4 0 ∷ slot 5 1 ∷ slot 0 0 ∷ []; fd_count = 3; fd_size = 4 }

abbrev hello : Answers
hello = record { accept = some 6; recv = λ i. got (104 ∷ 105 ∷ []); realloc = zeroing }

chat-Fits : Fits chat
chat-Fits = record { full = refl; room = omega arith; some_room = omega arith }

chat-once : (d : ℕ) → occurs d (active chat) ≤ 1
unfolding occurs
chat-once d = ground arith

chat-IsServing : IsServing 3 chat
chat-IsServing = record {
  fits = chat-Fits;
  first = (slot 3 0, refl, refl);
  in_use = omega arith;
  once = chat-once;
}

hello-unused : (n : ℕ) → hello.accept ≡ some n → occurs n (active chat) ≡ 0
unfolding occurs
hello-unused n e = ground arith

hello-IsKernel : IsKernel hello chat
hello-IsKernel = record {
  keeps = zeroing-KeepsContents;
  allocates = λ xs n e. cc;
  unused = hello-unused;
}

-- The message of 5 goes to 4 alone.
message_of_five : walk hello 3 5 0 chat ≡ some (chat, sent 4 (104 ∷ 105 ∷ []) ∷ [])
unfolding walk visit handle serve_client broadcast
message_of_five = refl

add_to_pfds-Added_example :
    ((add_to_pfds zeroing chat 6 ≡ none) × (3 ≡ chat.fd_size) × (zeroing chat.slots 8 ≡ none))
    ⊎ ((t : Table) × (add_to_pfds zeroing chat 6 ≡ some t) × Added chat 6 t)
add_to_pfds-Added_example = add_to_pfds-Added zeroing zeroing-KeepsContents chat 6 chat-Fits

del_pfds-Deleted_example : (t : Table) × (del_pfds chat 1 ≡ some t) × Deleted chat 1 (slot 4 0) t
del_pfds-Deleted_example = del_pfds-Deleted chat 1 (slot 4 0) chat-Fits (omega arith) refl

walk-Walks_example : Walks 3 chat (walk hello 3 5 0 chat)
walk-Walks_example = walk-Walks hello 3 5 chat hello-IsKernel chat-IsServing (omega arith)

abbrev same_slots : List PollFd → ℕ → Option (List PollFd)
same_slots xs n = some xs

same_slots-KeepsFds : KeepsFds same_slots
same_slots-KeepsFds xs n ys e = ap fds (sym (some-injective _ _ e))

turn-Turns_example : Turns 3 chat (some chat.slots) (turn same_slots hello 3 chat)
turn-Turns_example =
    turn-Turns same_slots hello 3 chat same_slots-KeepsFds hello-IsKernel chat-IsServing

abbrev malloc : ℕ → Option (List PollFd)
malloc n = some (empty_slots n)

abbrev booted_table : Table
booted_table = record { slots = slot 3 0 ∷ empty_slots 4; fd_count = 1; fd_size = 5 }

boots : start malloc 3 ≡ some booted_table
unfolding start install
boots = refl

malloc_five : (xs : List PollFd) → malloc 5 ≡ some xs → length xs ≡ 5
malloc_five xs e = ap length (sym (some-injective _ _ e))

Reach-IsServing_example : IsServing 3 booted_table
Reach-IsServing_example = Reach-IsServing {malloc = malloc} malloc_five (booted boots)
