-- ===== src/Peers/Linked.antt =====
-- What the list operations keep, and what a lookup finds after them.
use gc2021_pqdtls.Base.{
  ℕ, ◌≤◌, ◌==◌, ==_iff, if◌then◌else◌, true, false, Bool-cases, inl, inr, ◌⊎◌, Option, none, some,
  List, [], ◌∷◌, ◌≡◌, refl, ap, subst, sym, ◌∙◌, arith,
}
use gc2021_pqdtls.Session.{Session, session_equals}
use gc2021_pqdtls.Peers.{Peer, deref, free_peer, add_peer, delete_peer, get_peer, matching}

-- The address is not on the list.
abbrev pub Unlinked : ℕ → List ℕ → Type 0
Unlinked a [] = a ≤ a
Unlinked a (l ∷ next) = ((l == a) ≡ false) × Unlinked a next

-- Every link leads to an object, and no object is linked twice.
abbrev pub Linked : List Peer → List ℕ → Type 0
Linked heap [] = 0 ≤ 0
Linked heap (l ∷ next) =
    ((p : Peer) × (deref heap l ≡ some p)) × (Unlinked l next × Linked heap next)

pub Unlinked-delete_peer :
    (a b : ℕ) (peers : List ℕ) → Unlinked a peers → Unlinked a (delete_peer peers b)
unfolding delete_peer
Unlinked-delete_peer a b [] h = h
Unlinked-delete_peer a b (l ∷ next) (h, k) = elim (Bool-cases (l == b)) [
  | inl e ↦ rw e k
  | inr e ↦ rw e (h, Unlinked-delete_peer a b next k)
]

pub Linked-delete_peer :
    (heap : List Peer) (peers : List ℕ) (a : ℕ)
    → Linked heap peers
    → Linked heap (delete_peer peers a) × Unlinked a (delete_peer peers a)
unfolding delete_peer
Linked-delete_peer heap [] a h = (h, omega arith)
Linked-delete_peer heap (l ∷ next) a (p, (u, k)) = elim (Bool-cases (l == a)) [
  | inl e ↦ rw e (k, subst (λ t. Unlinked t next) ((==_iff l a).0 e) u)
  | inr e ↦
      let (i, j) = Linked-delete_peer heap next a k in
      rw e ((p, (Unlinked-delete_peer l a next u, i)), (e, j))
]

pub deref-free_peer :
    (heap : List Peer) (a b : ℕ) → (b == a) ≡ false → deref (free_peer heap a) b ≡ deref heap b
unfolding deref free_peer
deref-free_peer [] a b h = refl
deref-free_peer (p ∷ heap) a b h = elim (Bool-cases (p.addr == a)) [
  | inl e ↦
      let other : (p.addr == b) ≡ false = ground arith in rw (e, other) (deref-free_peer heap a b h)
  | inr e ↦ elim (Bool-cases (p.addr == b)) [
    | inl f ↦ rw (e, f) refl
    | inr f ↦ rw (e, f) (deref-free_peer heap a b h)
  ]
]

Linked-free_peer :
    (heap : List Peer) (peers : List ℕ) (a : ℕ)
    → Linked heap peers
    → Unlinked a peers
    → Linked (free_peer heap a) peers
Linked-free_peer heap [] a h u = h
Linked-free_peer heap (l ∷ next) a ((p, d), (v, k)) (h, u) =
    ((p, deref-free_peer heap a l h ∙ d), (v, Linked-free_peer heap next a k u))

-- Unlinking a peer and releasing it keeps every other link good and leaves none to the object that
-- is gone.
pub delete_peer-free_peer :
    (heap : List Peer) (peers : List ℕ) (a : ℕ)
    → Linked heap peers
    → Linked (free_peer heap a) (delete_peer peers a) × Unlinked a (delete_peer peers a)
delete_peer-free_peer heap peers a h =
    let (k, u) = Linked-delete_peer heap peers a h in
    (Linked-free_peer heap (delete_peer peers a) a k u, u)

-- A peer that was added under a session that equals itself is what a lookup of that session finds;
-- a lookup of a session that it does not have finds what it did before.
pub get_peer-add_peer :
    (heap : List Peer) (peers : List ℕ) (p : Peer) (session : Session)
    → deref heap p.addr ≡ some p
    → get_peer heap (add_peer peers p.addr) session
      ≡ (if session_equals p.session session then some p else get_peer heap peers session)
unfolding get_peer add_peer
get_peer-add_peer heap peers p session h = rw h refl

matching-some :
    (o : Option Peer) (session : Session) (rest : Option Peer) (p : Peer)
    → matching o session rest ≡ some p
    → ((o ≡ some p) × (session_equals p.session session ≡ true)) ⊎ (rest ≡ some p)
matching-some none session rest p h = ground arith
matching-some (some q) session rest p h = elim (Bool-cases (session_equals q.session session)) [
  | inl e ↦
      let same : ◌≡◌ {A = Option Peer} (some q) (some p) =
        subst (λ b. (if b then some q else rest) ≡ some p) e h in
      inl (same, subst (λ o. known o session) same e)
  | inr e ↦ inr (subst (λ b. (if b then some q else rest) ≡ some p) e h)
]
  where
    known : Option Peer → Session → Type 0
    known none session = 0 ≤ 0
    known (some q) session = session_equals q.session session ≡ true

-- The address is on the list.
abbrev pub On : ℕ → List ℕ → Type 0
On a [] = 1 ≤ 0
On a (l ∷ next) = (l ≡ a) ⊎ On a next

-- What a lookup finds stands on the list, at a link that leads to it, and has a session that equals
-- the one looked for.
pub get_peer_sound :
    (heap : List Peer) (peers : List ℕ) (session : Session) (p : Peer)
    → get_peer heap peers session ≡ some p
    → (session_equals p.session session ≡ true) × ((a : ℕ) × On a peers × (deref heap a ≡ some p))
unfolding get_peer
get_peer_sound heap [] session p h = ground arith
get_peer_sound heap (l ∷ next) session p h =
    elim (matching-some (deref heap l) session (get_peer heap next session) p h) [
      | inl (d, e) ↦ (e, (l, inl refl, d))
      | inr rest ↦
          let (e, (a, on, d)) = get_peer_sound heap next session p rest in (e, (a, inr on, d))
    ]

matching-none :
    (o : Option Peer) (session : Session) (rest : Option Peer) (p : Peer)
    → o ≡ some p
    → matching o session rest ≡ none
    → (session_equals p.session session ≡ false) × (rest ≡ none)
matching-none o session rest p d h = elim (Bool-cases (session_equals p.session session)) [
  | inl e ↦
      let here : matching (some p) session rest ≡ some p = rw e refl in
      let clash : ◌≡◌ {A = Option Peer} (some p) none =
        sym here ∙ ap (λ o. matching o session rest) (sym d) ∙ h in
      ground arith
  | inr e ↦
      let skip : matching (some p) session rest ≡ rest = rw e refl in
      (e, sym skip ∙ ap (λ o. matching o session rest) (sym d) ∙ h)
]

-- A lookup that finds nothing, where every link leads to an object: no object on the list has a
-- session that equals the one looked for.
pub get_peer_complete :
    (heap : List Peer) (peers : List ℕ) (session : Session) (a : ℕ) (p : Peer)
    → Linked heap peers
    → get_peer heap peers session ≡ none
    → On a peers
    → deref heap a ≡ some p
    → session_equals p.session session ≡ false
unfolding get_peer
get_peer_complete heap [] session a p k h on d = ground arith
get_peer_complete heap (l ∷ next) session a p ((q, e), (u, k)) h (inl same) d =
    (matching-none (deref heap l) session (get_peer heap next session) p (ap (deref heap) same ∙ d)
      h).0
get_peer_complete heap (l ∷ next) session a p ((q, e), (u, k)) h (inr on) d =
    get_peer_complete heap next session a p k
      (matching-none (deref heap l) session (get_peer heap next session) q e h).1 on d

-- Every link of the list leads to an object with a session that does not equal the one looked for.
abbrev pub NoneEquals : List Peer → Session → List ℕ → Type 0
NoneEquals heap session [] = Unit {0}
NoneEquals heap session (l ∷ next) =
    ((p : Peer) × ((deref heap l ≡ some p) × (session_equals p.session session ≡ false)))
    × NoneEquals heap session next

get_peer-NoneEquals :
    (heap : List Peer) (peers : List ℕ) (session : Session)
    → Linked heap peers
    → get_peer heap peers session ≡ none
    → NoneEquals heap session peers
unfolding get_peer
get_peer-NoneEquals heap [] session k h = tt
get_peer-NoneEquals heap (l ∷ next) session ((q, e), (u, k)) h =
    let (other, rest) = matching-none (deref heap l) session (get_peer heap next session) q e h in
    ((q, (e, other)), get_peer-NoneEquals heap next session k rest)

-- The two outcomes of a lookup.
abbrev pub Looked : List Peer → List ℕ → Session → Option Peer → Type 0
Looked heap peers session none = NoneEquals heap session peers
Looked heap peers session (some p) =
    (session_equals p.session session ≡ true) × ((a : ℕ) × On a peers × (deref heap a ≡ some p))

-- On a list whose links all lead to objects, a lookup finds an object of the list with a session that
-- equals the one looked for, or there is none on the list.
pub get_peer-Looked :
    (heap : List Peer) (peers : List ℕ) (session : Session)
    → Linked heap peers
    → Looked heap peers session (get_peer heap peers session)
get_peer-Looked heap peers session k = by_outcome (get_peer heap peers session) refl
  where
    by_outcome : (o : Option Peer) → get_peer heap peers session ≡ o → Looked heap peers session o
    by_outcome none h = get_peer-NoneEquals heap peers session k h
    by_outcome (some p) h = get_peer_sound heap peers session p h
