-- ===== src/Peers/Lpm.antt =====
-- Longest-prefix match as a specification: what `iptrie` documents of its maps, and what the table
-- of smartguard-crypto/src/session/peer_net.rs answers for the networks that were entered.
use smartguard.Prelude.{
  ℕ, ◌≤◌, ◌<◌, Bool, true, false, ◌&&◌, List, [], ◌∷◌, ◌++◌, ◌≡◌, refl, ◌⊎◌, inl, inr,
  if◌then◌else◌, leb, arith, All, All-append, Bool-cases, ◌∙◌, ap,
}
use mathlib.Core.List.{append_assoc}
use smartguard.Peers.PeerNet.{TrieLib}

-- The documented behaviour of one map: a search finds the value of the longest prefix that covers
-- the address, an insertion under a prefix that is there replaces its value, and the root covers
-- all. `match_len` is the length of the prefix that a search matches.
pub record IsLpm {V : Type 0} (t : TrieLib V) : Type 0 where
  pub covers : t.Prefix → List ℕ → Bool
  pub prefix_len : t.Prefix → ℕ
  pub match_len : t.RTrieMap → List ℕ → ℕ
  pub root_lookup : (v : V) (a : List ℕ) → t.lookup (t.compress (t.with_root v)) a ≡ v
  pub root_match : (v : V) (a : List ℕ) → match_len (t.with_root v) a ≡ 0
  pub insert_lookup :
      (r : t.RTrieMap) (p : t.Prefix) (v : V) (a : List ℕ)
      → t.lookup (t.compress (t.insert r p v)) a ≡ (
          if covers p a && leb (match_len r a) (prefix_len p) then v else t.lookup (t.compress r) a)
  pub insert_match :
      (r : t.RTrieMap) (p : t.Prefix) (v : V) (a : List ℕ)
      → match_len (t.insert r p v) a
        ≡ (if covers p a && leb (match_len r a) (prefix_len p) then prefix_len p else match_len r a)

module _ {V : Type 0} {t : TrieLib V} (lpm : IsLpm t) (a : List ℕ) where
  open t use {Prefix}
  open lpm use {covers, prefix_len}

  abbrev pub AtMost : ℕ → Prefix × V → Type 0
  AtMost len e = covers e.0 a ≡ true → prefix_len e.0 ≤ len

  abbrev pub Below : ℕ → Prefix × V → Type 0
  Below len e = covers e.0 a ≡ true → prefix_len e.0 < len

  -- One of the entries covers the address, no entry before it that does is longer, and every entry
  -- after it that does is shorter.
  pub record Chosen (entries : List (Prefix × V)) (v : V) (len : ℕ) : Type 0 where
    pub before : List (Prefix × V)
    pub after : List (Prefix × V)
    pub prefix : Prefix
    pub split : entries ≡ before ++ (prefix, v) ∷ after
    pub covered : covers prefix a ≡ true
    pub has_len : prefix_len prefix ≡ len
    pub older : All (AtMost len) before
    pub newer : All (Below len) after

  -- The value for the address: the chosen entry's, or the sentinel if no entry covers it.
  abbrev pub Owns : V → List (Prefix × V) → V → ℕ → Type 0
  Owns sentinel entries v len =
      ((v ≡ sentinel) × (len ≡ 0) × All (λ e. covers e.0 a ≡ false) entries) ⊎ Chosen entries v len

  AtMost-mono :
      (len len' : ℕ) (es : List (Prefix × V))
      → len ≤ len'
      → All (AtMost len) es
      → All (AtMost len') es
  AtMost-mono len len' [] h k = tt
  AtMost-mono len len' (e ∷ es) h k =
      ((λ c. let old = k.0 c in omega arith), AtMost-mono len len' es h k.1)

  AtMost-of_Below : (len : ℕ) (es : List (Prefix × V)) → All (Below len) es → All (AtMost len) es
  AtMost-of_Below len [] k = tt
  AtMost-of_Below len (e ∷ es) k =
      ((λ c. let old = k.0 c in omega arith), AtMost-of_Below len es k.1)

  AtMost-of_uncovered :
      (len : ℕ) (es : List (Prefix × V)) → All (λ e. covers e.0 a ≡ false) es → All (AtMost len) es
  AtMost-of_uncovered len [] k = tt
  AtMost-of_uncovered len (e ∷ es) k = ((λ c. absurd (cc)), AtMost-of_uncovered len es k.1)

  -- No entry that covers the address is longer than the match.
  Owns-AtMost :
      (sentinel : V) (es : List (Prefix × V)) (v : V) (len : ℕ)
      → Owns sentinel es v len
      → All (AtMost len) es
  Owns-AtMost sentinel es v len (inl (_, _, none_covers)) = AtMost-of_uncovered len es none_covers
  Owns-AtMost sentinel es v len (inr c) = rw c.split (
      All-append (AtMost len) c.before _ c.older
        ((λ h. let same = c.has_len in omega arith), AtMost-of_Below len c.after c.newer))

  abbrev takes : Prefix → ℕ → Bool
  takes p len = covers p a && leb len (prefix_len p)

  Owns-newer :
      (sentinel : V) (es : List (Prefix × V)) (v v' : V) (len : ℕ) (p : Prefix)
      → takes p len ≡ true
      → Owns sentinel es v len
      → Owns sentinel (es ++ (p, v') ∷ []) v' (prefix_len p)
  Owns-newer sentinel es v v' len p h o = inr (record {
    before = es;
    after = [];
    prefix = p;
    split = refl;
    covered = ground arith;
    has_len = refl;
    older = AtMost-mono len (prefix_len p) es (ground arith) (Owns-AtMost sentinel es v len o);
    newer = tt;
  })

  Owns-older :
      (sentinel : V) (es : List (Prefix × V)) (v v' : V) (len : ℕ) (p : Prefix)
      → takes p len ≡ false
      → Owns sentinel es v len
      → Owns sentinel (es ++ (p, v') ∷ []) v len
  Owns-older sentinel es v v' len p h (inl (e, z, none_covers)) =
      inl (e, z, All-append (λ e. covers e.0 a ≡ false) es _ none_covers (ground arith, tt))
  Owns-older sentinel es v v' len p h (inr c) = inr (record {
    before = c.before;
    after = c.after ++ (p, v') ∷ [];
    prefix = c.prefix;
    split = ap (λ es'. es' ++ (p, v') ∷ []) c.split ∙ append_assoc c.before _ _;
    covered = c.covered;
    has_len = c.has_len;
    older = c.older;
    newer = All-append (Below len) c.after _ c.newer ((λ covered. ground arith), tt);
  })

  abbrev pub Searched : V → t.RTrieMap → List (Prefix × V) → Type 0
  Searched sentinel r es = Owns sentinel es (t.lookup (t.compress r) a) (lpm.match_len r a)

  pub Searched-root : (sentinel : V) → Searched sentinel (t.with_root sentinel) []
  Searched-root sentinel = inl (lpm.root_lookup sentinel a, lpm.root_match sentinel a, tt)

  pub Searched-insert :
      (sentinel : V) (r : t.RTrieMap) (es : List (Prefix × V)) (p : Prefix) (v : V)
      → Searched sentinel r es
      → Searched sentinel (t.insert r p v) (es ++ (p, v) ∷ [])
  Searched-insert sentinel r es p v o = elim (Bool-cases (takes p (lpm.match_len r a))) [
    | inl h ↦
        rw (lpm.insert_lookup r p v a, lpm.insert_match r p v a, h)
          (Owns-newer sentinel es _ v _ p h o)
    | inr h ↦
        rw (lpm.insert_lookup r p v a, lpm.insert_match r p v a, h)
          (Owns-older sentinel es _ v _ p h o)
  ]
