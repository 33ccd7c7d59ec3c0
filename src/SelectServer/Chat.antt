-- ===== src/SelectServer/Chat.antt =====
-- What a turn of the select server does for one ready descriptor: a message, an error, a join, a
-- leave.
use c_basics.Prelude.{
  ℕ, suc, ◌+◌, ◌≤◌, ◌<◌, ◌≡◌, ◌≢◌, refl, ap, ◌∙◌, Bool, true, false, some, List, [], ◌∷◌, ◌++◌,
  arith, ◌==◌, if◌then◌else◌, length, take, append-nil,
}
use c_basics.Kernel.{failed, got}
use c_basics.SelectServer.Text.{zeros, joined_text, left_text}
use c_basics.SelectServer.Loop.{
  Event, State, Answers, turn, ready, Outcome, running, buffer_size, cleared, to_all, serve_client,
  serve_listener, closed,
}
use c_basics.SelectServer.Memory.{NulFree}
use c_basics.SelectServer.Members.{
  IsListening, received, addressed, received-to_all, received-append, closings, closings-append,
  closings-to_all,
}
use c_basics.SelectServer.Invariant.{filled-IsListening, greeted-IsListening}
use c_basics.SelectServer.Messages.{line, serve_client-line, serve_client-failed}
use c_basics.SelectServer.Greetings.{
  notice, greet-joined, say_goodbye-left, with_user, without_user,
}
use c_basics.SelectServer.Turns.{cleared-IsListening, turn-single, visit-client, visit-listener}

-- select(2) answers `i` alone.
pub record Only (i : ℕ) (select_set : ℕ → Bool) : Type 0 where
  pub on : select_set i ≡ true
  pub off : (k : ℕ) → k ≢ i → select_set k ≡ false

-- The turn ends in `s'`, sends `message` to those that `group` has, but the listener and `sender`,
-- once each, and nothing else to anybody, and closes `gone`.
pub record Sends (o : Outcome) (s' : State) (group : ℕ → Bool) (listener sender : ℕ)
    (message gone : List ℕ) : Type 0 where
  pub events : List Event
  pub ends : o ≡ running s' events
  pub sends_to :
      (d : ℕ) → received d events ≡ (if addressed group listener sender d then message ∷ [] else [])
  pub closes_only : closings events ≡ gone

-- A client that select(2) answers alone.
module _ (a : Answers) (select_set : ℕ → Bool) (listener i : ℕ) (s : State)
    (serving : IsListening listener s) (only : Only i select_set) (member : s.master i ≡ true)
    (client : i ≢ listener) (small : s.fd_max < 1023) where
  client-turn :
      (s' : State) (events : List Event)
      → s'.fd_max ≡ s.fd_max
      → serve_client listener (cleared s) i (a.recv i) ≡ some (s', events)
      → turn (ready select_set) a listener s ≡ running s' events
  client-turn s' events same served =
      let bound = serving.bounded i member in
      turn-single a select_set listener i s serving only.off bound (omega (arith, small))
        (omega (arith, small, same))
        (visit-client a select_set listener i (cleared s) (omega (arith, bound, small)) only.on
            client
          ∙ served)

  -- In a listening state with `fd_max` below 1023, with a client `i` of the set alone ready, below
  -- 1000, and a message of 1 to 1013 bytes without NUL: the turn does not fault and keeps the set;
  -- each other user in it gets once "User i: ", the bytes and zeros, ten bytes more than were
  -- received; nobody else gets anything, and nothing is closed.
  pub turn-message :
      (bytes : List ℕ)
      → a.recv i ≡ got bytes
      → i < 1000
      → NulFree bytes
      → 0 < length bytes
      → length bytes ≤ 1013
      → (s' : State) × (d : ℕ) × (length (line i bytes) + d ≡ length bytes + 10)
        × (s'.master ≡ s.master)
        × Sends
            (turn (ready select_set) a listener s)
            s'
            s.master
            listener
            i
            (line i bytes ++ zeros d)
            []
  turn-message bytes answer low free some_bytes short =
      let (r, d, fills, extra, served) =
        serve_client-line listener (cleared s) i bytes refl low free some_bytes short in
      let s' = record s {
        buffer = line i bytes ++ zeros (suc r);
        server_message = zeros buffer_size;
      } in
      let events = to_all s' listener i (line i bytes ++ zeros d) in
      (
        s',
        d,
        extra,
        refl,
        record {
          events = events;
          ends =
              client-turn s' events refl (ap (serve_client listener (cleared s) i) answer ∙ served);
          sends_to = λ e.
              received-to_all listener i s' _ e (
                filled-IsListening listener (cleared s) _ (cleared-IsListening listener s serving));
          closes_only = closings-to_all listener i s' _;
        },
      )

  -- In a listening state with `fd_max` below 1023, with a client `i` of the set alone ready, below
  -- 1000, and an error of recv(2): the turn does not fault, keeps the client in the set and closes
  -- nothing; each other user in the set gets once the first nine bytes of "User i: " with a zero
  -- after it, as if it were a message.
  pub turn-error :
      a.recv i ≡ failed
      → i < 1000
      → (s' : State) × (r : ℕ) × (length (line i []) + suc r ≡ buffer_size)
        × (s'.master ≡ s.master)
        × Sends
            (turn (ready select_set) a listener s)
            s'
            s.master
            listener
            i
            (take 9 (line i [] ++ zeros (suc r)))
            []
  turn-error answer low =
      let (r, fills, served) = serve_client-failed listener (cleared s) i refl low in
      let s' = record s {
        buffer = line i [] ++ zeros (suc r);
        server_message = zeros buffer_size;
      } in
      let events = to_all s' listener i (take 9 (line i [] ++ zeros (suc r))) in
      (
        s',
        r,
        fills,
        refl,
        record {
          events = events;
          ends =
              client-turn s' events refl (ap (serve_client listener (cleared s) i) answer ∙ served);
          sends_to = λ e.
              received-to_all listener i s' _ e (
                filled-IsListening listener (cleared s) _ (cleared-IsListening listener s serving));
          closes_only = closings-to_all listener i s' _;
        },
      )

  -- In a listening state with `fd_max` below 1023, with a client `i` of the set alone ready that
  -- hangs up: the turn does not fault, takes `i` and no other from the set, closes `i` alone, and
  -- each other user in the set gets once "User i left" with its newline.
  pub turn-leave :
      a.recv i ≡ got []
      → (s' : State) × ((e : ℕ) → s'.master e ≡ (if i == e then false else s.master e))
        × Sends
            (turn (ready select_set) a listener s)
            s'
            s.master
            listener
            i
            (notice i left_text)
            (i ∷ [])
  unfolding serve_client received closings
  turn-leave answer =
      let (r, fills, said) = say_goodbye-left listener (cleared s) i refl in
      let message = notice i left_text ++ zeros (suc r) in
      let s' = without_user (cleared s) i message in
      let told = to_all (cleared s) listener i (notice i left_text) in
      (
        s',
        (λ e. refl),
        record {
          events = told ++ (closed i ∷ []);
          ends =
              client-turn s' (told ++ (closed i ∷ [])) refl
                (ap (serve_client listener (cleared s) i) answer ∙ said);
          sends_to = λ e.
              received-append e told (closed i ∷ [])
              ∙ append-nil (received e told)
              ∙ received-to_all listener i (cleared s) _ e (cleared-IsListening listener s serving);
          closes_only =
              closings-append told (closed i ∷ [])
              ∙ ap (λ es. es ++ (i ∷ [])) (closings-to_all listener i (cleared s) _);
        },
      )

-- In a listening state with `fd_max` below 1023, with the listener alone ready and a connection
-- below 1023: the turn does not fault, adds the connection and nothing else to the set, and closes
-- nothing; each other user in the set gets once "User n joined" with its newline, filled with zeros
-- to 1024 bytes.
pub turn-join :
    (a : Answers) (select_set : ℕ → Bool) (listener new_fd : ℕ) (s : State)
    → IsListening listener s
    → Only listener select_set
    → a.accept ≡ some new_fd
    → new_fd < 1023
    → s.fd_max < 1023
    → (s' : State) × (r : ℕ) × (length (notice new_fd joined_text) + r ≡ 1024)
      × ((e : ℕ) → s'.master e ≡ (if new_fd == e then true else s.master e))
      × Sends
          (turn (ready select_set) a listener s)
          s'
          s'.master
          listener
          new_fd
          (notice new_fd joined_text ++ zeros r)
          []
unfolding serve_client serve_listener
turn-join a select_set listener new_fd s serving only answer small room =
    let (r, fills, said) = greet-joined listener (cleared s) new_fd refl (omega arith) in
    let message = notice new_fd joined_text ++ zeros (suc r) in
    let s' = with_user (cleared s) new_fd message in
    let h' =
      greeted-IsListening listener new_fd (cleared s) message
        (cleared-IsListening listener s serving) (omega arith) in
    (
      s',
      suc r,
      fills,
      (λ e. refl),
      record {
        events = to_all s' listener new_fd message;
        ends =
            turn-single a select_set listener listener s serving only.off
              (serving.bounded listener serving.listens) (omega arith) (ground arith)
              (visit-listener a select_set listener (cleared s)
                  (omega (arith, serving.bounded listener serving.listens)) only.on
                ∙ ap (serve_listener listener (cleared s)) answer
                ∙ said);
        sends_to = λ e. received-to_all listener new_fd s' message e h';
        closes_only = closings-to_all listener new_fd s' message;
      },
    )
