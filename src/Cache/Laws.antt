-- ===== src/Cache/Laws.antt =====
-- What the cache store finds after its writes.
use phpo.Base.{
  ap, ◌∙◌, ◌≡◌, refl, inl, inr, Bool, false, Bool-cases, not, ◌&&◌, ◌==◌, any, none, some, List, [],
  ◌∷◌, Text, str_eq, eq_iff, filter, if◌then◌else◌, arith,
}
use phpo.Task.Records.{lookup}
use phpo.Task.Counting.{lookup-insert}
use phpo.Cache.{
  CacheEntry, CacheStore, CacheEventMark, is_entry, find_entry, put_entry, set_entry, drop_entry,
  key_of, record_mark, mark_of,
}

find_entry-put_entry :
    (kind version : Text) (e : CacheEntry) (es : List CacheEntry)
    → find_entry kind version (put_entry e es)
      ≡ (if is_entry kind version e then some e else find_entry kind version es)
unfolding find_entry put_entry
find_entry-put_entry kind version e [] = refl
find_entry-put_entry kind version e (x ∷ es) = ground (
  arith,
  find_entry-put_entry kind version e es,
  eq_iff x.kind e.kind,
  eq_iff x.version e.version,
  eq_iff x.kind kind,
  eq_iff x.version version,
  eq_iff e.kind kind,
  eq_iff e.version version,
)

find_entry-filter :
    (kind version k v : Text) (es : List CacheEntry)
    → find_entry kind version (filter (λ x. not (is_entry k v x)) es)
      ≡ (if str_eq k kind && str_eq v version then none else find_entry kind version es)
unfolding find_entry
find_entry-filter kind version k v [] = ground arith
find_entry-filter kind version k v (x ∷ es) = ground (
  arith,
  find_entry-filter kind version k v es,
  eq_iff x.kind k,
  eq_iff x.version v,
  eq_iff x.kind kind,
  eq_iff x.version version,
  eq_iff k kind,
  eq_iff v version,
)

-- Writing an entry shows under its kind and version alone; dropping one removes it and no other.
pub find_entry_after :
    (kind version k v : Text) (e : CacheEntry) (s : CacheStore)
    → (find_entry kind version (set_entry e s).entries
        ≡ (if is_entry kind version e then some e else find_entry kind version s.entries))
      × (find_entry kind version (drop_entry k v s).entries
          ≡ (if str_eq k kind && str_eq v version then none else find_entry kind version s.entries))
unfolding set_entry drop_entry
find_entry_after kind version k v e s =
    (find_entry-put_entry kind version e s.entries, find_entry-filter kind version k v s.entries)

abbrev pub has_slash : Text → Bool
has_slash s = any (λ c. c == b'/') s

key_of-split :
    (k j v w : Text)
    → has_slash k ≡ false
    → has_slash j ≡ false
    → key_of k v ≡ key_of j w
    → (k ≡ j) × (v ≡ w)
key_of-split [] [] v w h g e = (refl, cc)
key_of-split [] (c ∷ j) v w h g e = ground arith
key_of-split (c ∷ k) [] v w h g e = ground arith
key_of-split (c ∷ k) (d ∷ j) v w h g e =
    let tail : key_of k v ≡ key_of j w = cc in
    let (x, y) = key_of-split k j v w (ground arith) (ground arith) tail in (ground arith, y)

key_of-str_eq :
    (k j v w : Text)
    → has_slash k ≡ false
    → has_slash j ≡ false
    → str_eq (key_of k v) (key_of j w) ≡ (str_eq k j && str_eq v w)
key_of-str_eq k j v w h g = elim (Bool-cases (str_eq (key_of k v) (key_of j w))) [
  | inl e ↦
      let (x, y) = key_of-split k j v w h g ((eq_iff (key_of k v) (key_of j w)).0 e) in
      ground (arith, eq_iff k j, eq_iff v w)
  | inr n ↦ elim (Bool-cases (str_eq k j && str_eq v w)) [
    | inl e ↦
        let x : k ≡ j = (eq_iff k j).0 (ground arith) in
        let y : v ≡ w = (eq_iff v w).0 (ground arith) in
        absurd (
          ground (
            arith,
            (eq_iff (key_of k v) (key_of j w)).1 (ap (λ z. key_of z v) x ∙ ap (key_of j) y),
          ))
    | inr m ↦ rw (n, m) refl
  ]
]

-- A mark is read back under its kind and version, and under no other, for kinds without a slash: the
-- texts by which the store keys them do not run together.
pub mark_of-record_mark :
    (kind version k v : Text) (mark : CacheEventMark) (s : CacheStore)
    → has_slash kind ≡ false
    → has_slash k ≡ false
    → mark_of k v (record_mark kind version mark s)
      ≡ (if str_eq kind k && str_eq version v then some mark else mark_of k v s)
unfolding mark_of record_mark
mark_of-record_mark kind version k v mark s h g =
    lookup-insert (key_of kind version) (key_of k v) mark s.marks
    ∙ ap (λ b. if b then some mark else lookup (key_of k v) s.marks)
        (key_of-str_eq kind k version v h g)
