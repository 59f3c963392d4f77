-- ===== src/Tests/ToySessions.antt =====
-- Toy tries, which search by longest prefix as a function of the address, and toy sessions, which do
-- not encrypt.
use Prim.Native.Char.{code}
use native.Mathlib.Decide.{ℕ_discrete}
use smartguard.Prelude.{
  ℕ, zero, suc, ◌+◌, ◌-◌, ◌≤◌, String, Bool, true, false, ◌&&◌, some, List, [], ◌∷◌, ◌++◌, ◌≡◌,
  refl, arith, ◌==◌, leb, if◌then◌else◌, length, take, drop, replicate, returns, Bool-cases, inl,
  inr, leb→le, length-drop, ap, ◌∙◌,
}
use smartguard.Net.{IpAddr, SocketAddr}
use smartguard.Peers.PeerNet.{TrieLib, PeerNet}
use smartguard.Peers.Lpm.{IsLpm}
use smartguard.Session.Handle.{Message, noop, read, write, payload, SessionLib, slice}
use smartguard.Session.Buffer.{slice-eq}
use smartguard.Session.Extern.{Layout}

abbrev pub codes : String → List ℕ
codes String.[] = []
codes (String.◌∷◌ c s) = code c ∷ codes s

abbrev pub covers : List ℕ → List ℕ → Bool
covers [] a = true
covers (p ∷ ps) [] = false
covers (p ∷ ps) (b ∷ bs) = p == b && covers ps bs

-- A map is the length of the match and the value, for every address.
abbrev pub toy_trie : TrieLib ℕ
toy_trie = record {
  Prefix = List ℕ;
  RTrieMap = List ℕ → ℕ × ℕ;
  LCTrieMap = List ℕ → ℕ × ℕ;
  parse = λ s. some (codes s);
  with_root = λ v a. (0, v);
  insert = λ r p v a. if covers p a && leb (r a).0 (length p) then (length p, v) else r a;
  compress = λ r. r;
  lookup = λ r a. (r a).1;
}

pub toy-IsLpm : IsLpm toy_trie
toy-IsLpm = record {
  covers = covers;
  prefix_len = length;
  match_len = λ r a. (r a).0;
  root_lookup = λ v a. refl;
  root_match = λ v a. refl;
  insert_lookup = λ r p v a. choose (covers p a && leb (r a).0 (length p)) _ _;
  insert_match = λ r p v a. choose_len (covers p a && leb (r a).0 (length p)) _ _;
}
  where
    choose : (b : Bool) (x y : ℕ × ℕ) → (if b then x else y).1 ≡ (if b then x.1 else y.1)
    choose true x y = refl
    choose false x y = refl

    choose_len : (b : Bool) (x y : ℕ × ℕ) → (if b then x else y).0 ≡ (if b then x.0 else y.0)
    choose_len true x y = refl
    choose_len false x y = refl

abbrev pub somewhere : SocketAddr
somewhere = record { ip = IpAddr.v4 203 0 113 2; port = 51820 }

-- What is received is a packet of the peer whose number is the sessions' state.
abbrev pub toy_recv : ℕ → List ℕ → Message ℕ
toy_recv s buf = if leb 16 (length buf) then read s (drop 16 buf) else noop

abbrev pub toy_sessions : SessionLib
toy_sessions = record {
  PeerId = ℕ;
  peer_eq = ℕ_discrete;
  Sessions = ℕ;
  Metadata = Unit {0};
  recv_message = λ s addr buf. (toy_recv s buf, buf, s);
  send_message = λ s peer plain. (payload somewhere tt, plain, s);
  frame_in_place = λ metadata area. area;
  get_header_for = λ packet. 0 ∷ 0 ∷ 0 ∷ 2 ∷ [];
  data_header_len = 16;
  kernel_header_len = 4;
  tun_buf_start = 12;
}

take-length : (xs : List ℕ) (n : ℕ) → length xs ≤ n → take n xs ≡ xs
take-length [] zero h = refl
take-length [] (suc n) h = refl
take-length (x ∷ xs) zero h = absurd (omega arith)
take-length (x ∷ xs) (suc n) h = ap (◌∷◌ x) (take-length xs n (omega arith))

toy_read :
    (s : ℕ) (buf : List ℕ) (peer : ℕ) (bytes : List ℕ)
    → toy_recv s buf ≡ read peer bytes
    → slice buf 16 (16 + length bytes) ≡ returns bytes
toy_read s buf peer bytes e = elim (Bool-cases (leb 16 (length buf))) [
  | inr short ↦ absurd (cc (rw short at e))
  | inl long ↦ placed bytes (cc (rw long at e)) (leb→le 16 (length buf) long)
]
  where
    placed :
        (bytes : List ℕ)
        → drop 16 buf ≡ bytes
        → 16 ≤ length buf
        → slice buf 16 (16 + length bytes) ≡ returns bytes
    placed bytes same long =
        slice-eq buf 16 (16 + length bytes) (omega arith)
          (omega (arith, ap length same, length-drop 16 buf))
        ∙ ap returns (
            ap (take (16 + length bytes - 16)) same
            ∙ take-length bytes (16 + length bytes - 16) (omega arith))

toy_write :
    (s : ℕ) (buf bytes : List ℕ)
    → toy_recv s buf ≡ write bytes
    → slice buf 0 (length bytes) ≡ returns bytes
toy_write s buf bytes e = elim (Bool-cases (leb 16 (length buf))) [
  | inl long ↦ absurd (cc (rw long at e))
  | inr short ↦ absurd (cc (rw short at e))
]

pub toy_layout : Layout toy_sessions
toy_layout = record {
  header_fits = refl;
  read_in_place = λ s addr buf peer bytes e. toy_read s buf peer bytes e;
  write_in_place = λ s addr buf bytes e. toy_write s buf bytes e;
}

-- A table in which 10.x belongs to peer 3, and a packet from 10.0.0.2 to 10.0.0.1.
abbrev pub toy_net : PeerNet toy_trie toy_trie
toy_net = record {
  v4 = toy_trie.insert (toy_trie.with_root 0) (10 ∷ []) 3;
  v6 = toy_trie.with_root 0;
}

abbrev pub toy_packet : List ℕ
toy_packet = 69 ∷ replicate 11 0 ++ (10 ∷ 0 ∷ 0 ∷ 2 ∷ 10 ∷ 0 ∷ 0 ∷ 1 ∷ [])

abbrev pub toy_buffer : List ℕ
toy_buffer = replicate 16 0 ++ toy_packet
