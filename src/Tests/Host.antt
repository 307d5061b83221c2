-- ===== src/Tests/Host.antt =====
-- A small host for the runs of src/route.rs: its route table, the kill switch's chain, the number of NAT
-- rules and its files, with the commands that the program gives.
use soulvpn.Base.{
  sym, ℕ, zero, suc, ◌-◌, ◌<◌, ◌≡◌, ◌≢◌, refl, ap, ◌∙◌, Bool, true, false, ◌&&◌, if◌then◌else◌,
  Option, none, some, List, [], ◌∷◌, ◌++◌, String, ◌=?=◌, Eq, text_eq, bytes_eq, codes, Map, lookup,
  insert, remove, contains_key, lookup-insert, lookup-remove, ◌↔◌, arith, ltb, ◌==◌, inl, inr,
  Bool-cases,
}
use soulvpn.Config.Chars.{Text}
use soulvpn.Route.Os.{Os, Arg, word, addr, number, name}
use soulvpn.Route.Dns.Laws.{FileLaws, is_some}
use soulvpn.Route.KillSwitch.Rules.{FilterLaws, OnChain, creates, flushes, deletes, appends}
use soulvpn.Route.Nat.{ip_forward}
use soulvpn.Route.Nat.Laws.{NatLaws}
use soulvpn.Route.Client.Laws.{RouteLaws, TidyHost}

abbrev arg_beq : Arg → Arg → Bool
arg_beq (word a) (word b) = a =?= b
arg_beq (addr a) (addr b) = a == b
arg_beq (number a) (number b) = a == b
arg_beq (name a) (name b) = a =?= b
arg_beq _ _ = false

pub arg_beq_iff : (a b : Arg) → (arg_beq a b ≡ true) ↔ (a ≡ b)
arg_beq_iff (word a) (word b) = ground (arith, text_eq.beq_iff a b)
arg_beq_iff (addr a) (addr b) = ground arith
arg_beq_iff (number a) (number b) = ground arith
arg_beq_iff (name a) (name b) = ground (arith, bytes_eq.beq_iff a b)
arg_beq_iff (word a) (addr b) = ground arith
arg_beq_iff (word a) (number b) = ground arith
arg_beq_iff (word a) (name b) = ground arith
arg_beq_iff (addr a) (word b) = ground arith
arg_beq_iff (addr a) (number b) = ground arith
arg_beq_iff (addr a) (name b) = ground arith
arg_beq_iff (number a) (word b) = ground arith
arg_beq_iff (number a) (addr b) = ground arith
arg_beq_iff (number a) (name b) = ground arith
arg_beq_iff (name a) (word b) = ground arith
arg_beq_iff (name a) (addr b) = ground arith
arg_beq_iff (name a) (number b) = ground arith

instance abbrev pub arg_eq : Eq Arg
arg_eq = record { beq = arg_beq; beq_iff = arg_beq_iff }

abbrev pub word_of : Arg → String
word_of (word s) = s
word_of (addr a) = ""
word_of (number n) = ""
word_of (name t) = ""

pub record Filter : Type 0 where
  pub chain : Option (List (List Arg))
  pub jumps : ℕ

pub record Host : Type 0 where
  pub table : Map Arg (List Arg)
  pub filter : Filter
  pub nat : ℕ
  pub files : Map String Text
  pub online : Bool

-- Each part after a command, and whether the part lets it succeed.
abbrev route_command : List Arg → Map Arg (List Arg) → Map Arg (List Arg) × Bool
route_command (op ∷ dest ∷ way) t =
    if word_of op =?= "replace"
    then (insert dest way t, true)
    else if word_of op =?= "del"
    then (remove dest t, contains_key dest t)
    else (t, true)
route_command (op ∷ []) t = (t, true)
route_command [] t = (t, true)

abbrev ip_command : List Arg → Map Arg (List Arg) → Map Arg (List Arg) × Bool
ip_command (family ∷ rest) t =
    let r = route_command rest t in if word_of family =?= "route" then r else (t, true)
ip_command [] t = (t, true)

abbrev table_after : List Arg → Map Arg (List Arg) → Map Arg (List Arg) × Bool
table_after (a ∷ rest) t = let r = ip_command rest t in if word_of a =?= "ip" then r else (t, true)
table_after [] t = (t, true)

abbrev new_chain_in : Option (List (List Arg)) → Option (List (List Arg)) × Bool
new_chain_in none = (some [], true)
new_chain_in (some rules) = (some rules, false)

abbrev flush_in : Option (List (List Arg)) → Option (List (List Arg)) × Bool
flush_in none = (none, false)
flush_in (some rules) = (some [], true)

abbrev append_in : List Arg → Option (List (List Arg)) → Option (List (List Arg)) × Bool
append_in rule none = (none, false)
append_in rule (some rules) = (some (rules ++ rule ∷ []), true)

abbrev delete_in : Option (List (List Arg)) → ℕ → Option (List (List Arg)) × Bool
delete_in none jumps = (none, false)
delete_in (some rules) zero = (none, true)
delete_in (some rules) (suc n) = (some rules, false)

abbrev on_chain : ℕ → Option (List (List Arg)) × Bool → Filter × Bool
on_chain jumps (chain, done) = (record { chain = chain; jumps = jumps }, done)

abbrev filter_command : List Arg → Filter → Filter × Bool
filter_command [] f = (f, true)
filter_command (op ∷ []) f = (f, true)
filter_command (op ∷ target ∷ rule) f =
    if word_of op =?= "-N"
    then on_chain f.jumps (new_chain_in f.chain)
    else if word_of op =?= "-F"
    then on_chain f.jumps (flush_in f.chain)
    else if word_of op =?= "-X"
    then on_chain f.jumps (delete_in f.chain f.jumps)
    else if word_of op =?= "-A"
    then on_chain f.jumps (append_in rule f.chain)
    else if word_of op =?= "-C"
    then (f, ltb 0 f.jumps)
    else if word_of op =?= "-I"
    then (record f { jumps = suc f.jumps }, true)
    else if word_of op =?= "-D"
    then (record f { jumps = f.jumps - 1 }, ltb 0 f.jumps)
    else (f, true)

abbrev filter_after : List Arg → Filter → Filter × Bool
filter_after (a ∷ rest) f =
    let r = filter_command rest f in if word_of a =?= "iptables" then r else (f, true)
filter_after [] f = (f, true)

abbrev nat_command : List Arg → ℕ → ℕ × Bool
nat_command (table ∷ op ∷ rule) n =
    if word_of op =?= "-C"
    then (n, ltb 0 n)
    else if word_of op =?= "-A"
    then (suc n, true)
    else (n - 1, ltb 0 n)
nat_command (table ∷ []) n = (n, true)
nat_command [] n = (n, true)

abbrev nat_after : List Arg → ℕ → ℕ × Bool
nat_after (a ∷ t ∷ rest) n =
    let r = nat_command rest n in if word_of t =?= "-t" then r else (n, true)
nat_after (a ∷ []) n = (n, true)
nat_after [] n = (n, true)

abbrev pub host : Os
host = record {
  World = Host;
  exec = λ w args.
      let (t, b) = table_after args w.table in
      let (f, b') = filter_after args w.filter in
      let (n, b'') = nat_after args w.nat in
      (record w { table = t; filter = f; nat = n }, some (b && (b' && b'')));
  output = λ w args.
      some (true, if w.online then codes "default via 192.168.1.1 dev eth0 proto dhcp" else []);
  exists = λ w p. contains_key p w.files;
  read = λ w p. lookup p w.files;
  write = λ w p t. (record w { files = insert p t w.files }, true);
  remove_file = λ w p. (record w { files = remove p w.files }, true);
}

option_seen : (o : Option Text) → elim o [ none ↦ false | some v ↦ true ] ≡ is_some o
option_seen none = refl
option_seen (some v) = refl

exists-read_lem : (w : Host) (p : String) → contains_key p w.files ≡ is_some (lookup p w.files)
unfolding contains_key
exists-read_lem w p = option_seen (lookup p w.files)

pub ne-beq {ℓ} : {A : Type ℓ} (e : Eq A) (a b : A) → a ≢ b → e.beq a b ≡ false
ne-beq e a b h = elim (Bool-cases (e.beq a b)) [
  | inl same ↦ absurd (h ((e.beq_iff a b).0 same))
  | inr other ↦ other
]

pub beq_refl {ℓ} : {A : Type ℓ} (e : Eq A) (a : A) → e.beq a a ≡ true
beq_refl e a = (e.beq_iff a a).1 refl

pub host_files : FileLaws host
host_files = record {
  read-write = λ w p t which done. lookup-insert p p t w.files ∙ rw (beq_refl text_eq p) refl;
  read-write_other = λ w p q t h. lookup-insert p q t w.files ∙ rw (ne-beq text_eq p q h) refl;
  read-remove_file = λ w p done. lookup-remove p p w.files ∙ rw (beq_refl text_eq p) refl;
  read-remove_file_other = λ w p q h. lookup-remove p q w.files ∙ rw (ne-beq text_eq p q h) refl;
  exists-read = λ w p. exists-read_lem w p;
}

pub append_in_failed :
    (rule : List Arg) (chain : Option (List (List Arg)))
    → some ((append_in rule chain).1 && true) ≢ some true
    → (append_in rule chain).0 ≡ chain
append_in_failed rule none failed = refl
append_in_failed rule (some rules) failed = absurd (failed refl)

pub append_in_done :
    (rule : List Arg) (chain : Option (List (List Arg)))
    → some ((append_in rule chain).1 && true) ≡ some true
    → (rules : List (List Arg)) × (chain ≡ some rules)
      × ((append_in rule chain).0 ≡ some (rules ++ rule ∷ []))
append_in_done rule none done = cc
append_in_done rule (some rules) done = (rules, refl, refl)

pub jumps_lem :
    (args : List Arg) → OnChain args → (f : Filter) → (filter_after args f).0.jumps ≡ f.jumps
jumps_lem args creates f = refl
jumps_lem args flushes f = refl
jumps_lem args deletes f = refl
jumps_lem args (appends rule) f = refl

pub positive : (n : ℕ) → some (ltb 0 n && true) ≡ some true → 0 < n
positive zero found = cc
positive (suc n) found = omega arith

pub deleted_lem : (n : ℕ) → n - 1 ≡ (if ltb 0 n && true then n - 1 else n)
deleted_lem n = ground arith

unfoldable pub host_filter : FilterLaws host
host_filter = record {
  chain = λ w. w.filter.chain;
  jumps = λ w. w.filter.jumps;
  chain-append_failed = λ w rule failed. append_in_failed rule w.filter.chain failed;
  chain-append = λ w rule done. append_in_done rule w.filter.chain done;
  chain-flush = λ w rules there. rw there refl;
  chain-flush_none = λ w missing. ap (λ c. (flush_in c).0) missing;
  chain-check = λ w. refl;
  chain-insert = λ w. refl;
  jumps-OnChain = λ w args edits. jumps_lem args edits w.filter;
  jumps-check = λ w. refl;
  check-true = λ w found. positive w.filter.jumps found;
  jumps-insert = λ w. refl;
  jumps-delete = λ w. deleted_lem w.filter.jumps;
}

pub positive_nat : (n : ℕ) → some (ltb 0 n) ≡ some true → 0 < n
positive_nat zero found = cc
positive_nat (suc n) found = omega arith

pub deleted_nat : (n : ℕ) → n - 1 ≡ (if ltb 0 n then n - 1 else n)
deleted_nat n = ground arith

-- The setting as the file shows it.
abbrev pub shows_one : Option Text → Bool
shows_one none = false
shows_one (some []) = false
shows_one (some (c ∷ shown)) = c == 49

unfoldable pub host_nat : NatLaws host
host_nat = record {
  forwarding = λ w. shows_one (lookup ip_forward w.files);
  forwarding-on = λ w done. ap shows_one (lookup-insert ip_forward ip_forward (codes "1") w.files);
  forwarding-back = λ w v shown was done.
      ap shows_one (lookup-insert ip_forward ip_forward shown v.files ∙ sym was);
  forwarding-exec = λ w op rule. refl;
  rules = λ w rule. w.nat;
  rules-write = λ w p t rule. refl;
  rules-check = λ w rule. refl;
  check-true = λ w rule found. positive_nat w.nat found;
  rules-append = λ w rule. refl;
  rules-delete = λ w rule. deleted_nat w.nat;
}

pub there_lem :
    (dest : Arg) (way : List Arg) (t : Map Arg (List Arg))
    → lookup dest t ≡ some way
    → contains_key dest t ≡ true
unfolding contains_key
there_lem dest way t there = rw (contains_key, there) refl

unfoldable pub host_routes : RouteLaws host
unfolding host_filter
host_routes = record {
  filter = host_filter;
  routes = λ w s. lookup s w.table;
  routes-replace =
      λ w dest way. lookup-insert dest dest way w.table ∙ rw (beq_refl arg_eq dest) refl;
  routes-replace_other =
      λ w dest s way h. lookup-insert dest s way w.table ∙ rw (ne-beq arg_eq dest s h) refl;
  routes-del = λ w dest way there.
      lookup-remove dest dest w.table
      ∙ rw (beq_refl arg_eq dest, there_lem dest way w.table there) refl;
  routes-del_none =
      λ w dest way missing. lookup-remove dest dest w.table ∙ rw (beq_refl arg_eq dest) refl;
  routes-del_other =
      λ w dest s way h. lookup-remove dest s w.table ∙ rw (ne-beq arg_eq dest s h) refl;
  routes-files = (λ w p t. refl, λ w p. refl);
  routes-six = λ w rest. refl;
  routes-iptables = λ w rest. refl;
  jumps-files = (λ w p t. refl, λ w p. refl);
  jumps-ip = λ w rest. refl;
}

pub jumped : (n : ℕ) → 0 < n → some (ltb 0 n && true) ≡ some true
jumped zero h = absurd (omega (arith, h))
jumped (suc n) h = ground arith

unfoldable pub tidy_host : TidyHost host
unfolding host_routes host_filter
tidy_host = record {
  host = host_routes;
  del-succeeds = λ w dest way there. rw (there_lem dest way w.table there) refl;
  delete-succeeds = λ w there. jumped w.filter.jumps there;
}
