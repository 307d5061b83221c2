-- ===== src/Client/Gate.antt =====
-- src/client.rs: the downlink (lines 165-204) and a handshake of the maintenance task (lines 310-333), as
-- they share `recv_gate` and the socket. The gate is fair: who waits gets it when it is given back.
use soulvpn.Base.{
  ℕ, zero, suc, ◌+◌, ◌-◌, ◌≤◌, ◌≡◌, ◌≢◌, refl, List, [], ◌∷◌, ◌++◌, get_or, length, length-append,
  arith, ok, ◌⊎◌, inl, sym, ◌∙◌,
}
use soulvpn.Crypto.Noise.{Noise}
use soulvpn.Crypto.Session.{Session}
use soulvpn.Client.{Attempt, no_answer, answered, handshake}
use soulvpn.Client.Laws.{handshake-IsAnswered}

-- The downlink waits for the gate, waits for a datagram with the gate, or deals with the one it got.
pub data Down : Type 0 where
  queued receiving handling : Down

-- The handshake is about to send, waits for the gate, or waits for a datagram with the gate.
pub data Up : Type 0 where
  ready in_line listening : Up

-- `due` answers are on their way and `arrived` ones wait in the socket; `results` is what the attempts
-- so far came to.
pub record Link : Type 0 where
  pub down : Down
  pub up : Up
  pub due : ℕ
  pub arrived : List (List ℕ)
  pub results : List Attempt

-- Who gets the gate when the other gives it back.
abbrev pub next_up : Up → Up
next_up ready = ready
next_up in_line = listening
next_up listening = listening

abbrev pub next_down : Down → Down
next_down queued = receiving
next_down receiving = receiving
next_down handling = handling

-- A link on which nothing arrives but answers to the handshake, one at most for each message. The wait
-- for an answer ends with the downlink in line again: it has two seconds to get there.
pub data Step (s : Link) : Link → Type 0 where
  send_held :
      s.up ≡ ready → s.down ≡ receiving → Step s (record s { up = in_line; due = s.due + 1 })
  send_free :
      s.up ≡ ready → s.down ≡ handling → Step s (record s { up = listening; due = s.due + 1 })
  arrive :
      (resp : List ℕ) (left : ℕ)
      → s.due ≡ suc left
      → Step s (record s { due = left; arrived = s.arrived ++ resp ∷ [] })
  lose : (left : ℕ) → s.due ≡ suc left → Step s (record s { due = left })
  downlink_takes :
      (resp : List ℕ) (rest : List (List ℕ))
      → s.down ≡ receiving
      → s.arrived ≡ resp ∷ rest
      → Step s (record s { down = handling; up = next_up s.up; arrived = rest })
  downlink_waits : s.down ≡ handling → s.up ≡ listening → Step s (record s { down = queued })
  downlink_enters : s.down ≡ handling → s.up ≢ listening → Step s (record s { down = receiving })
  handshake_takes :
      (resp : List ℕ) (rest : List (List ℕ))
      → s.up ≡ listening
      → s.arrived ≡ resp ∷ rest
      → Step s (record s {
        up = ready;
        down = next_down s.down;
        arrived = rest;
        results = s.results ++ answered resp ∷ [];
      })
  time_out :
      s.up ≡ listening
      → s.arrived ≡ []
      → s.down ≡ queued
      → Step s (record s { up = ready; down = receiving; results = s.results ++ no_answer ∷ [] })

-- When the handshake begins, the downlink waits in `recv`, as it does on a silent link.
abbrev pub silent : Link
silent = record { down = receiving; up = ready; due = 0; arrived = []; results = [] }

pub data Reach : Link → Type 0 where
  here : Reach silent
  later : {s t : Link} → Reach s → Step s t → Reach t

abbrev pub pending : Link → ℕ
pending s = s.due + length s.arrived

-- Where the two stand, and how many answers can still come.
abbrev pub Stands : Link → Type 0
Stands s =
    ((s.down ≡ receiving) × (s.up ≡ ready) × (pending s ≡ 0))
    ⊎ ((s.down ≡ receiving) × (s.up ≡ in_line) × (pending s ≤ 1))
    ⊎ ((s.down ≡ handling) × (s.up ≡ listening) × (pending s ≡ 0))
    ⊎ ((s.down ≡ queued) × (s.up ≡ listening) × (pending s ≡ 0))

abbrev pub Unanswered : List Attempt → Type 0
Unanswered [] = Unit
Unanswered (a ∷ rest) = (a ≡ no_answer) × Unanswered rest

Unanswered-append :
    (results : List Attempt) → Unanswered results → Unanswered (results ++ no_answer ∷ [])
Unanswered-append [] all = (refl, tt)
Unanswered-append (a ∷ rest) all = (all.0, Unanswered-append rest all.1)

Step-Stands :
    (s t : Link) → Step s t → Stands s → Unanswered s.results → Stands t × Unanswered t.results
Step-Stands s t (send_held up down) stands un = (ground arith, un)
Step-Stands s t (send_free up down) stands un = (ground arith, un)
Step-Stands s t (arrive resp left due) stands un =
    (ground (arith, length-append s.arrived (resp ∷ [])), un)
Step-Stands s t (lose left due) stands un = (ground arith, un)
Step-Stands s t (downlink_takes resp rest down arrived) stands un = (ground arith, un)
Step-Stands s t (downlink_waits down up) stands un = (ground arith, un)
Step-Stands s t (downlink_enters down up) stands un = (ground arith, un)
Step-Stands s t (handshake_takes resp rest up arrived) stands un = absurd (ground arith)
Step-Stands s t (time_out up arrived down) stands un =
    (ground arith, Unanswered-append s.results un)

Reach-Stands : (s : Link) → Reach s → Stands s × Unanswered s.results
Reach-Stands s here = (inl (refl, refl, refl), tt)
Reach-Stands t (later {s} reach step) =
    let (stands, un) = Reach-Stands s reach in Step-Stands s t step stands un

-- What the attempts of a handshake come to, by their numbers from 1 on.
abbrev pub net_of : List Attempt → ℕ → List ℕ → Attempt
net_of results attempt msg = get_or results (attempt - 1) no_answer

get_or-Unanswered :
    (results : List Attempt) (i : ℕ) → Unanswered results → get_or results i no_answer ≡ no_answer
get_or-Unanswered [] i all = refl
get_or-Unanswered (a ∷ rest) zero all = all.0
get_or-Unanswered (a ∷ rest) (suc i) all = get_or-Unanswered rest i all.1

module _ (n : Noise) (private server_public : List ℕ) where
  -- On a silent link a reconnecting handshake never succeeds, even if its server answers every message,
  -- as long as the downlink is in line for the gate again before a wait of two seconds ends: in every run
  -- of the two tasks no attempt gets its answer, since the downlink has the gate when it comes.
  pub Reach-starved :
      (s : Link)
      → Reach s
      → (session : Session n)
      → Unanswered s.results × (handshake n private server_public (net_of s.results) ≢ ok session)
  Reach-starved s reach session =
      let un = (Reach-Stands s reach).1 in
      (
        un,
        λ h.
            let goes_back =
              handshake-IsAnswered n private server_public (net_of s.results) session h in
            let missing = get_or-Unanswered s.results (goes_back.0 - 1) un in
            let clash : no_answer ≡ answered goes_back.3 = sym missing ∙ goes_back.8 in cc,
      )

length-zero : (xs : List (List ℕ)) → length xs ≡ 0 → xs ≡ []
length-zero [] h = refl
length-zero (x ∷ xs) h = absurd (omega (arith, h))

-- No task can go on.
abbrev pub Stuck : Link → Type 0
Stuck s = (t : Link) → ¬ (Step s t)

-- The downlink waits for a datagram, the handshake for the gate, and none is on its way.
waiting-Stuck :
    (s : Link) → s.down ≡ receiving → s.up ≡ in_line → s.due ≡ 0 → s.arrived ≡ [] → Stuck s
waiting-Stuck s down up due arrived t (send_held up' down') = cc
waiting-Stuck s down up due arrived t (send_free up' down') = cc
waiting-Stuck s down up due arrived t (arrive resp left due') = ground (arith, due, due')
waiting-Stuck s down up due arrived t (lose left due') = ground (arith, due, due')
waiting-Stuck s down up due arrived t (downlink_takes resp rest down' arrived') = cc
waiting-Stuck s down up due arrived t (downlink_waits down' up') = cc
waiting-Stuck s down up due arrived t (downlink_enters down' up') = cc
waiting-Stuck s down up due arrived t (handshake_takes resp rest up' arrived') = cc
waiting-Stuck s down up due arrived t (time_out up' arrived' down') = cc

-- From any state of such a link in which a handshake is about to send while the downlink waits, two
-- steps lead to one from which no step leads on: the handshake sends its message and is in line for the
-- gate, and the message or its answer is lost. The downlink is then in `recv` with the gate, and the
-- wait of two seconds of the handshake has not begun.
pub Reach-Stuck :
    (s : Link)
    → Reach s
    → s.up ≡ ready
    → s.down ≡ receiving
    → (sent : Link) × (lost : Link) × Step s sent
      × (sent.up ≡ in_line)
      × (sent.due ≡ s.due + 1)
      × Step sent lost
      × (lost ≡ record sent { due = s.due })
      × Stuck lost
Reach-Stuck s reach up down =
    let none_due : s.due ≡ 0 = ground (arith, (Reach-Stands s reach).0, up, down) in
    let none_arrived : s.arrived ≡ [] =
      length-zero s.arrived (ground (arith, (Reach-Stands s reach).0, up, down)) in
    let sent : Link = record s { up = in_line; due = s.due + 1 } in
    let lost : Link = record sent { due = s.due } in
    (
      sent,
      lost,
      send_held up down,
      refl,
      refl,
      lose s.due (omega arith),
      refl,
      waiting-Stuck lost down refl none_due none_arrived,
    )
