-- ===== src/Route/KillSwitch/Rules.antt =====
-- What `iptables` promises of the kill switch's chain and of the jump to it, and the rules of the chain.
use soulvpn.Base.{
  ℕ, suc, ◌-◌, ◌<◌, ◌≡◌, ◌≢◌, refl, ap, Bool, true, false, Option, none, some, List, [], ◌∷◌, ◌++◌,
  Result, ok, err, ◌⊎◌, if◌then◌else◌,
}
use soulvpn.Config.Chars.{Text}
use soulvpn.Route.Os.{Os, Arg, succeeded}
use soulvpn.Route.KillSwitch.{
  new_chain, flush_chain, delete_chain, append_rule, check_jump, insert_jump, delete_jump,
  allow_loopback, allow_tunnel, allow_server, allow_established, allow_established_old, reject_rest,
  unwrap_or_false,
}

-- The commands that are not about the jump from `OUTPUT`.
pub data OnChain : List Arg → Type 0 where
  creates : OnChain new_chain
  flushes : OnChain flush_chain
  deletes : OnChain delete_chain
  appends : (rule : List Arg) → OnChain (append_rule rule)

abbrev pub is_done : Option Bool → Bool
is_done (some b) = b
is_done none = false

-- What is relied on of `iptables`, by what a command reports: `-A` puts a rule at the end of a chain that
-- exists, `-F` empties it, `-I` adds a jump and `-D` removes one, and each changes nothing where it fails;
-- `-C` looks for the jump.
pub record FilterLaws (os : Os) : Type 1 where
  pub chain : os.World → Option (List (List Arg))
  pub jumps : os.World → ℕ
  pub chain-append_failed :
      (w : os.World) (rule : List Arg)
      → (os.exec w (append_rule rule)).1 ≢ some true
      → chain (os.exec w (append_rule rule)).0 ≡ chain w
  pub chain-append :
      (w : os.World) (rule : List Arg)
      → (os.exec w (append_rule rule)).1 ≡ some true
      → (rules : List (List Arg)) × (chain w ≡ some rules)
        × (chain (os.exec w (append_rule rule)).0 ≡ some (rules ++ rule ∷ []))
  pub chain-flush :
      (w : os.World) (rules : List (List Arg))
      → chain w ≡ some rules
      → chain (os.exec w flush_chain).0
        ≡ some (if is_done (os.exec w flush_chain).1 then [] else rules)
  pub chain-flush_none : (w : os.World) → chain w ≡ none → chain (os.exec w flush_chain).0 ≡ none
  pub chain-check : (w : os.World) → chain (os.exec w check_jump).0 ≡ chain w
  pub chain-insert : (w : os.World) → chain (os.exec w insert_jump).0 ≡ chain w
  pub jumps-OnChain :
      (w : os.World) (args : List Arg) → OnChain args → jumps (os.exec w args).0 ≡ jumps w
  pub jumps-check : (w : os.World) → jumps (os.exec w check_jump).0 ≡ jumps w
  pub check-true : (w : os.World) → (os.exec w check_jump).1 ≡ some true → 0 < jumps w
  pub jumps-insert :
      (w : os.World)
      → jumps (os.exec w insert_jump).0
        ≡ (if is_done (os.exec w insert_jump).1 then suc (jumps w) else jumps w)
  pub jumps-delete :
      (w : os.World)
      → jumps (os.exec w delete_jump).0
        ≡ (if is_done (os.exec w delete_jump).1 then jumps w - 1 else jumps w)

-- Which of the two rules for replies the chain has.
abbrev pub Replies : List (List Arg) → Type 0
Replies rules =
    (rules ≡ []) ⊎ (rules ≡ allow_established ∷ []) ⊎ (rules ≡ allow_established_old ∷ [])

-- All that the chain lets out is on loopback or through the tunnel, to the server, or a reply.
abbrev pub rules_of : ℕ → ℕ → Text → List (List Arg) → List (List Arg)
rules_of server port tun replies =
    allow_loopback ∷ allow_tunnel tun ∷ allow_server server port ∷ (replies ++ reject_rest ∷ [])

-- The rules that are left of a chain, by whether it could be emptied.
abbrev pub leftover : Bool → Option (List (List Arg)) → List (List Arg)
leftover flushed none = []
leftover true (some rules) = []
leftover false (some rules) = rules

-- The rules of the kill switch behind others, in the order in which they are added.
pub gathered :
    (left replies : List (List Arg)) (server port : ℕ) (tun : Text)
    → ((((left ++ allow_loopback ∷ []) ++ allow_tunnel tun ∷ []) ++ allow_server server port ∷ [])
          ++ replies)
        ++ reject_rest ∷ []
      ≡ left ++ rules_of server port tun replies
gathered [] replies server port tun = refl
gathered (rule ∷ left) replies server port tun =
    ap (◌∷◌ rule) (gathered left replies server port tun)

-- One where the action succeeded.
abbrev pub armed : {A : Type 0} → Result A → ℕ
armed (ok a) = 1
armed (err e) = 0

pub is_present :
    (status : Option Bool) → unwrap_or_false (succeeded status) ≡ true → status ≡ some true
is_present none h = cc
is_present (some b) h = ap some h
