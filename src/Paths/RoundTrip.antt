-- ===== src/Paths/RoundTrip.antt =====
-- From a path of the host to the containers and back.
use phpo.Base.{
  ◌≡◌, refl, inl, inr, sym, ap, ◌∙◌, ◌&&◌, true, false, Bool-cases, [], ◌∷◌, ◌++◌, Text, lit,
  str_eq, eq_iff, starts_with, starts_with-split, is_given, length, drop, arith,
}
use phpo.App.{Env}
use phpo.Paths.{
  www_container, sites_container, is_under, env_of, moves, host_to_container, container_to_host,
}

drop-append_length : (d r : Text) → drop (length d) (d ++ r) ≡ r
drop-append_length [] r = refl
drop-append_length (c ∷ d) r = drop-append_length d r

-- What follows the directory's name in a path at or below it.
abbrev IsRest : Text → Type 0
IsRest [] = Unit
IsRest (c ∷ r) = c ≡ b'/'

append-assoc_slash : (d t : Text) → (d ++ lit "/") ++ t ≡ d ++ (b'/' ∷ t)
append-assoc_slash [] t = refl
append-assoc_slash (c ∷ d) t = ap (◌∷◌ c) (append-assoc_slash d t)

append-nil : (d : Text) → d ++ [] ≡ d
append-nil [] = refl
append-nil (c ∷ d) = ap (◌∷◌ c) (append-nil d)

is_under-split : (d p : Text) → is_under d p ≡ true → (r : Text) × (p ≡ d ++ r) × IsRest r
unfolding is_under
is_under-split d p h = elim (Bool-cases (str_eq p d)) [
  | inl same ↦ ([], (eq_iff p d).0 same ∙ sym (append-nil d), tt)
  | inr other ↦
      let (t, e) = starts_with-split p (d ++ lit "/") (ground arith) in
      (b'/' ∷ t, e ∙ append-assoc_slash d t, refl)
]

www_under : (r : Text) → IsRest r → is_under www_container (www_container ++ r) ≡ true
unfolding is_under str_eq starts_with
www_under [] h = refl
www_under (c ∷ r) h = rw h refl

sites_under :
    (r : Text)
    → IsRest r
    → (is_under sites_container (sites_container ++ r) ≡ true)
      × (is_under www_container (sites_container ++ r) ≡ false)
unfolding is_under str_eq starts_with
sites_under [] h = (refl, refl)
sites_under (c ∷ r) h = rw h (refl, refl)

host_to_container_sites :
    (env : Env) (p : Text)
    → is_given p ≡ true
    → moves (env_of (lit "WWW_ROOT") env) p ≡ false
    → moves (env_of (lit "NGINX_SITES_ROOT") env) p ≡ true
    → host_to_container env p
      ≡ sites_container ++ drop (length (env_of (lit "NGINX_SITES_ROOT") env)) p
unfolding host_to_container
host_to_container_sites env p g n m = rw (g, n, m) refl

container_to_host_sites :
    (env : Env) (r : Text)
    → is_given (env_of (lit "NGINX_SITES_ROOT") env) ≡ true
    → IsRest r
    → container_to_host env (sites_container ++ r) ≡ env_of (lit "NGINX_SITES_ROOT") env ++ r
unfolding container_to_host
container_to_host_sites env r g h =
    let (inside, apart) = sites_under r h in
    elim (Bool-cases (is_given (env_of (lit "WWW_ROOT") env))) [
      | inl w ↦ rw (apart, w, inside, g) refl
      | inr w ↦ rw (w, inside, g) refl
    ]

-- A path of the host that is not itself below a container's directory comes back from the containers
-- as it was, whatever the directories are set to.
pub container_to_host-host_to_container :
    (env : Env) (p : Text)
    → is_under www_container p ≡ false
    → is_under sites_container p ≡ false
    → container_to_host env (host_to_container env p) ≡ p
unfolding host_to_container container_to_host moves
container_to_host-host_to_container env p no_www no_sites =
    let w = env_of (lit "WWW_ROOT") env in
    let s = env_of (lit "NGINX_SITES_ROOT") env in
    elim (Bool-cases (is_given p)) [
      | inr e ↦ rw (e, e) refl
      | inl g ↦ elim (Bool-cases (is_given w && is_under w p)) [
        | inl m ↦
            let (r, e, h) = is_under-split w p (ground arith) in
            let cut : drop (length w) p ≡ r = ap (drop (length w)) e ∙ drop-append_length w r in
            ground (arith, www_under r h, cut, e)
        | inr n ↦ elim (Bool-cases (is_given s && is_under s p)) [
          | inl m ↦
              let (r, e, h) = is_under-split s p (ground arith) in
              let cut : drop (length s) p ≡ r = ap (drop (length s)) e ∙ drop-append_length s r in
              ap (container_to_host env) (
                host_to_container_sites env p (ground arith) (ground arith) (ground arith)
                ∙ ap (λ x. sites_container ++ x) cut)
              ∙ container_to_host_sites env r (ground arith) h
              ∙ sym e
          | inr k ↦ ground (arith, no_www, no_sites)
        ]
      ]
    ]
