-- ===== src/Samples.antt =====
-- An instance of the parameters, for examples and tests. Peers and addresses are texts; their
-- printed forms begin with "Q" and "/", and no other text is read.
use Prim.Native.Char.{code}
use text.Mathlib.Text.{◌==◌ as str_eq}
use p2p_service.Prelude.{
  ℕ, ◌≡◌, refl, String, Option, none, some, List, [], ◌∷◌, ◌==◌, if◌then◌else◌, String_discrete,
}
use p2p_service.Net.{Net, Protocol, ip4, tcp, p2p}

abbrev read_marked : ℕ → String → Option String
read_marked mark String.[] = none
read_marked mark (String.◌∷◌ c s) = if code c == mark then some s else none

abbrev marked : ℕ → String → String
marked mark s = if mark == b'Q' then String.◌∷◌ "Q" s else String.◌∷◌ "/" s

abbrev components : String → List (Protocol String)
components s =
    if str_eq s "lan1"
    then ip4 10 0 0 1 ∷ tcp 4025 ∷ []
    else if str_eq s "lan2"
    then ip4 10 0 0 2 ∷ tcp 4025 ∷ []
    else if str_eq s "loop"
    then ip4 127 0 0 1 ∷ tcp 4025 ∷ []
    else []

abbrev split_last : String → Option (Protocol String) × String
split_last s = if str_eq s "boot/p2p" then (some (p2p "boot"), "boot") else (none, s)

abbrev pub sample_net : Net
sample_net = record {
  PeerId = String;
  peer_eq = String_discrete;
  Multiaddr = String;
  addr_eq = String_discrete;
  iter = components;
  pop = split_last;
  show_peer = marked b'Q';
  read_peer = read_marked b'Q';
  show_addr = marked b'/';
  read_addr = read_marked b'/';
}

pub read-show_peer : (p : String) → sample_net.read_peer (sample_net.show_peer p) ≡ some p
read-show_peer p = refl

pub read-show_addr : (a : String) → sample_net.read_addr (sample_net.show_addr a) ≡ some a
read-show_addr a = refl
