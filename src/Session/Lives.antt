-- ===== src/Session/Lives.antt =====
-- Who lives in a session, and how deaths and connections change what a look-up finds.
use mafia_casefile.Prelude.{
  ℕ, zero, suc, ◌≡◌, refl, String, Bool, true, false, Option, none, some, List, [], ◌∷◌, All, keep,
  length, arith, eq_iff, ◌==◌, if◌then◌else◌, Option-cases, inl, inr,
}
use mafia_casefile.Shared.{ConnectionStatus, is_alive}
use mafia_casefile.Session.{GameSessionPlayer, find_player}
use mafia_casefile.Session.Players.{
  kill, kill_player, set_connection, is_mafia_alive, is_other_alive, evaluate_winner,
}

-- The first player with this id is alive.
abbrev pub lives : String → List GameSessionPlayer → Bool
lives id ps = elim (find_player id ps) [ none ↦ false | some p ↦ is_alive p.status ]

abbrev pub lives? : Option String → List GameSessionPlayer → Bool
lives? none ps = true
lives? (some id) ps = lives id ps

-- No two players share an id.
abbrev pub Distinct : List GameSessionPlayer → Type 0
Distinct [] = Unit
Distinct (p ∷ ps) = (find_player p.user_id ps ≡ none) × Distinct ps

abbrev pub IsNamed : GameSessionPlayer → Type 0
IsNamed p = (p.user_id == "") ≡ false

-- What a look-up finds has the id looked for.
pub find_player-id :
    (id : String) (ps : List GameSessionPlayer) (p : GameSessionPlayer)
    → find_player id ps ≡ some p
    → p.user_id ≡ id
unfolding find_player
find_player-id id [] p e = cc
find_player-id id (q ∷ ps) p e = ground (arith, eq_iff q.user_id id, find_player-id id ps p)

pub find_player-named :
    (id : String) (ps : List GameSessionPlayer) (p : GameSessionPlayer)
    → All IsNamed ps
    → find_player id ps ≡ some p
    → (id == "") ≡ false
unfolding find_player
find_player-named id [] p h e = cc
find_player-named id (q ∷ ps) p h e =
    ground (arith, eq_iff q.user_id id, find_player-named id ps p h.1)

kill_id : (t : String) (now : ℕ) (p : GameSessionPlayer) → (kill t now p).user_id ≡ p.user_id
kill_id t now p = ground arith

pub find_player-kill_player :
    (id t : String) (now : ℕ) (ps : List GameSessionPlayer)
    → find_player id (kill_player t now ps)
      ≡ elim (find_player id ps) [ none ↦ none | some p ↦ some (kill t now p) ]
unfolding kill_player find_player
find_player-kill_player id t now [] = refl
find_player-kill_player id t now (p ∷ ps) = ground (arith, find_player-kill_player id t now ps)

-- After a death the dead player lives no more, and everybody else does as before.
pub lives-kill_player :
    (id t : String) (now : ℕ) (ps : List GameSessionPlayer)
    → lives id (kill_player t now ps) ≡ (if id == t then false else lives id ps)
lives-kill_player id t now ps = elim (Option-cases (find_player id ps)) [
  | inl e ↦ ground (arith, find_player-kill_player id t now ps)
  | inr (p, e) ↦ ground (
    arith,
    find_player-kill_player id t now ps,
    find_player-id id ps p,
    eq_iff p.user_id t,
    eq_iff id t,
  )
]

pub kill_player-Distinct :
    (t : String) (now : ℕ) (ps : List GameSessionPlayer)
    → Distinct ps
    → Distinct (kill_player t now ps)
unfolding kill_player
kill_player-Distinct t now [] h = tt
kill_player-Distinct t now (p ∷ ps) h = (
  rw (kill_id t now p, find_player-kill_player p.user_id t now ps, h.0),
  kill_player-Distinct t now ps h.1,
)

pub kill_player-IsNamed :
    (t : String) (now : ℕ) (ps : List GameSessionPlayer)
    → All IsNamed ps
    → All IsNamed (kill_player t now ps)
unfolding kill_player
kill_player-IsNamed t now [] h = tt
kill_player-IsNamed t now (p ∷ ps) h = (rw (kill_id t now p) h.0, kill_player-IsNamed t now ps h.1)

-- A change of connection is seen by no test on id, role and status.
pub lives-set_connection :
    (id : String) (i : ℕ) (c : ConnectionStatus) (now : ℕ) (ps : List GameSessionPlayer)
    → lives id (set_connection i c now ps) ≡ lives id ps
unfolding set_connection find_player
lives-set_connection id zero c now [] = refl
lives-set_connection id (suc i) c now [] = refl
lives-set_connection id zero c now (p ∷ ps) = ground arith
lives-set_connection id (suc i) c now (p ∷ ps) = ground (arith, lives-set_connection id i c now ps)

absent-set_connection :
    (id : String) (i : ℕ) (c : ConnectionStatus) (now : ℕ) (ps : List GameSessionPlayer)
    → find_player id ps ≡ none
    → find_player id (set_connection i c now ps) ≡ none
unfolding set_connection find_player
absent-set_connection id zero c now [] e = refl
absent-set_connection id (suc i) c now [] e = refl
absent-set_connection id zero c now (p ∷ ps) e = ground arith
absent-set_connection id (suc i) c now (p ∷ ps) e =
    ground (arith, absent-set_connection id i c now ps)

pub set_connection-Distinct :
    (i : ℕ) (c : ConnectionStatus) (now : ℕ) (ps : List GameSessionPlayer)
    → Distinct ps
    → Distinct (set_connection i c now ps)
unfolding set_connection
set_connection-Distinct zero c now [] h = tt
set_connection-Distinct (suc i) c now [] h = tt
set_connection-Distinct zero c now (p ∷ ps) h = h
set_connection-Distinct (suc i) c now (p ∷ ps) h =
    (absent-set_connection p.user_id i c now ps h.0, set_connection-Distinct i c now ps h.1)

pub set_connection-IsNamed :
    (i : ℕ) (c : ConnectionStatus) (now : ℕ) (ps : List GameSessionPlayer)
    → All IsNamed ps
    → All IsNamed (set_connection i c now ps)
unfolding set_connection
set_connection-IsNamed zero c now [] h = tt
set_connection-IsNamed (suc i) c now [] h = tt
set_connection-IsNamed zero c now (p ∷ ps) h = h
set_connection-IsNamed (suc i) c now (p ∷ ps) h = (h.0, set_connection-IsNamed i c now ps h.1)

length-keep-set_connection :
    (test : GameSessionPlayer → Bool) (c : ConnectionStatus) (now : ℕ)
    → ((p : GameSessionPlayer)
        → test (record p { connection_status = c; last_seen_at = now }) ≡ test p)
    → (i : ℕ) (ps : List GameSessionPlayer)
    → length (keep test (set_connection i c now ps)) ≡ length (keep test ps)
unfolding set_connection
length-keep-set_connection test c now same zero [] = refl
length-keep-set_connection test c now same (suc i) [] = refl
length-keep-set_connection test c now same zero (p ∷ ps) = rw (same p) (ground arith)
length-keep-set_connection test c now same (suc i) (p ∷ ps) =
    ground (arith, length-keep-set_connection test c now same i ps)

pub evaluate_winner-set_connection :
    (i : ℕ) (c : ConnectionStatus) (now : ℕ) (ps : List GameSessionPlayer)
    → evaluate_winner (set_connection i c now ps) ≡ evaluate_winner ps
unfolding evaluate_winner
evaluate_winner-set_connection i c now ps = rw (
  length-keep-set_connection is_mafia_alive c now (λ p. refl) i ps,
  length-keep-set_connection is_other_alive c now (λ p. refl) i ps,
)
