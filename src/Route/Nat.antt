-- ===== src/Route/Nat.antt =====
-- src/route.rs, `NatGuard` (lines 210-293).
pub mod Laws
use soulvpn.Base.{
  Bool, true, false, Option, none, some, List, [], ◌∷◌, if◌then◌else◌, Result, ok, err, String,
  codes, with_context,
}
use soulvpn.Config.Chars.{Text}
use soulvpn.Route.Os.{
  Os, Arg, word, addr, number, name, Action, ◌>>=◌, ◌>>◌, pure, run, run_status, default_egress_dev,
  write_file,
}
use soulvpn.Route.KillSwitch.{unwrap_or_false}

abbrev pub ip_forward : String
ip_forward = "/proc/sys/net/ipv4/ip_forward"

pub record NatGuard : Type 0 where
  pub tun_cidr : Text
  pub egress : Text
  pub prev_forward : Option Text
  pub rule_added : Bool

abbrev pub masquerade : Text → Text → List Arg
masquerade tun_cidr egress =
    word "-s" ∷ name tun_cidr ∷ word "-o" ∷ name egress ∷ word "-j" ∷ word "MASQUERADE" ∷ []

abbrev pub nat_command : String → List Arg → List Arg
nat_command op rule = word "iptables" ∷ word "-t" ∷ word "nat" ∷ word op ∷ word "POSTROUTING" ∷ rule

module _ (os : Os) where
  -- Lines 226-260: whether the rule was added.
  abbrev pub add_rule : List Arg → Action os.World Bool
  add_rule rule w =
      let checked = run_status os (nat_command "-C" rule) w in
      if unwrap_or_false checked.1
      then (checked.0, ok false)
      else (run os (nat_command "-A" rule) >> pure true) checked.0

  unfoldable pub setup : Text → Action os.World NatGuard
  setup tun_cidr w0 =
      (do
        write_file os "enable ip_forward" ip_forward (codes "1")
        egress ←
            λ w. (w, with_context "detect egress iface for MASQUERADE" (default_egress_dev os w))
        rule_added ← add_rule (masquerade tun_cidr egress)
        pure (record {
          tun_cidr = tun_cidr;
          egress = egress;
          prev_forward = os.read w0 ip_forward;
          rule_added = rule_added;
        }))
        w0

  abbrev pub put_back : Option Text → os.World → os.World
  put_back none w = w
  put_back (some prev) w = (os.write w ip_forward prev).0

  -- `Drop`
  unfoldable pub remove : NatGuard → os.World → os.World
  remove guard w = put_back guard.prev_forward (
      if guard.rule_added
      then (os.exec w (nat_command "-D" (masquerade guard.tun_cidr guard.egress))).0
      else w)
