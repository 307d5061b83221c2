-- ===== src/Route/KillSwitch.antt =====
-- src/route.rs, `KillSwitch` (lines 297-380).
pub mod Rules
pub mod Laws
pub mod Jumps
use soulvpn.Base.{ℕ, Bool, true, false, List, [], ◌∷◌, ◌++◌, if◌then◌else◌, Result, ok, err, String}
use soulvpn.Config.Chars.{Text}
use soulvpn.Route.Os.{
  Os, Arg, word, addr, number, name, Action, ◌>>=◌, ◌>>◌, pure, ignore, run, run_status,
}

pub data KillSwitch : Type 0 where
  guard : KillSwitch

abbrev pub ks_chain : Arg
ks_chain = word "SOULVPN_KS"

-- The commands on the chain and on the jump to it.
abbrev pub new_chain : List Arg
new_chain = word "iptables" ∷ word "-N" ∷ ks_chain ∷ []

abbrev pub flush_chain : List Arg
flush_chain = word "iptables" ∷ word "-F" ∷ ks_chain ∷ []

abbrev pub delete_chain : List Arg
delete_chain = word "iptables" ∷ word "-X" ∷ ks_chain ∷ []

abbrev pub append_rule : List Arg → List Arg
append_rule rule = word "iptables" ∷ word "-A" ∷ ks_chain ∷ rule

abbrev pub check_jump : List Arg
check_jump = word "iptables" ∷ word "-C" ∷ word "OUTPUT" ∷ word "-j" ∷ ks_chain ∷ []

abbrev pub insert_jump : List Arg
insert_jump = word "iptables" ∷ word "-I" ∷ word "OUTPUT" ∷ word "1" ∷ word "-j" ∷ ks_chain ∷ []

abbrev pub delete_jump : List Arg
delete_jump = word "iptables" ∷ word "-D" ∷ word "OUTPUT" ∷ word "-j" ∷ ks_chain ∷ []

-- The rules.
abbrev pub allow_loopback : List Arg
allow_loopback = word "-o" ∷ word "lo" ∷ word "-j" ∷ word "RETURN" ∷ []

abbrev pub allow_tunnel : Text → List Arg
allow_tunnel tun = word "-o" ∷ name tun ∷ word "-j" ∷ word "RETURN" ∷ []

abbrev pub allow_server : ℕ → ℕ → List Arg
allow_server ip port =
    word "-d"
    ∷ addr ip
    ∷ word "-p"
    ∷ word "udp"
    ∷ word "--dport"
    ∷ number port
    ∷ word "-j"
    ∷ word "RETURN"
    ∷ []

abbrev pub allow_established : List Arg
allow_established =
    word "-m"
    ∷ word "conntrack"
    ∷ word "--ctstate"
    ∷ word "ESTABLISHED,RELATED"
    ∷ word "-j"
    ∷ word "RETURN"
    ∷ []

abbrev pub allow_established_old : List Arg
allow_established_old =
    word "-m"
    ∷ word "state"
    ∷ word "--state"
    ∷ word "ESTABLISHED,RELATED"
    ∷ word "-j"
    ∷ word "RETURN"
    ∷ []

abbrev pub reject_rest : List Arg
reject_rest = word "-j" ∷ word "REJECT" ∷ word "--reject-with" ∷ word "icmp-net-unreachable" ∷ []

abbrev pub unwrap_or_false : Result Bool → Bool
unwrap_or_false (ok b) = b
unwrap_or_false (err e) = false

module _ (os : Os) where
  -- `or_else`
  abbrev pub or_else :
      Action os.World (Unit {0}) → os.World × Result (Unit {0}) → os.World × Result (Unit {0})
  or_else other (w, ok done) = (w, ok done)
  or_else other (w, err e) = other w

  abbrev pub append : List Arg → Action os.World (Unit {0})
  append rule = run os (append_rule rule)

  -- Lines 328-355, whose outcome is dropped.
  abbrev pub append_established : Action os.World (Unit {0})
  append_established =
      ignore (λ w. or_else (append allow_established_old) (append allow_established w))

  -- Lines 366-369.
  abbrev pub jump : Action os.World (Unit {0})
  jump w =
      let checked = run_status os check_jump w in
      if unwrap_or_false checked.1 then (checked.0, ok tt) else run os insert_jump checked.0

  unfoldable pub install : ℕ → ℕ → Text → Action os.World KillSwitch
  install server_ip server_port tun_name = do
    ignore (run os new_chain)
    ignore (run os flush_chain)
    append allow_loopback
    append (allow_tunnel tun_name)
    append (allow_server server_ip server_port)
    append_established
    append reject_rest
    jump
    pure guard

  -- `Drop`
  unfoldable pub remove : os.World → os.World
  remove w = (os.exec (os.exec (os.exec w delete_jump).0 flush_chain).0 delete_chain).0
