-- ===== src/Daemonize/Fates.antt =====
-- Which processes daemonize of c/cl_daemonize.h leaves behind.
use Prim.Native.String.{String}
use codelib.Base.{
  ℕ, zero, suc, ◌≡◌, refl, ap, Bool, true, false, ◌&&◌, ◌||◌, Option, none, some, List, [], ◌∷◌,
  if◌then◌else◌, leb, arith,
}
use codelib.Base.Int.{pos, is_negative}
use codelib.Daemonize.{
  sigchld, sighup, Process, Answers, Fate, exits, returns, close, close_down, settle, lead,
  daemonize,
}

-- The loop closes the descriptors from its first down to 1.
close_down_lem :
    (n : ℕ) (p : Process)
    → ((fd : ℕ)
        → (close_down n p).is_open fd ≡ (if leb 1 fd && leb fd n then false else p.is_open fd))
      × (close_down n p ≡ record p { is_open = (close_down n p).is_open })
unfolding close_down
close_down_lem zero p = ((λ fd. ground arith), refl)
close_down_lem (suc n) p = (
  (λ fd. ground (arith, (close_down_lem n (close (suc n) p)).0 fd)),
  (close_down_lem n (close (suc n) p)).1,
)

-- Where every call succeeds, three processes come of daemonize. The caller exits with 0. Its child,
-- which leads a new session, exits too, but with EXIT_FAILURE. Daemonize returns 0 to the
-- grandchild alone, which is in the child's session and does not lead it, ignores both signals, has
-- the umask 0 and the directory asked for, and has of the caller's descriptors those above
-- `open_max` and the descriptor 0: the loop that closes them stops before it.
pub daemonize_lem :
    (c d : ℕ) (n : ℕ) (sid cd : ℕ) (dir ident : String) (p : Process)
    → let a : Answers = record {
      fork1 = some c;
      setsid = pos sid;
      fork2 = some d;
      chdir = pos cd;
      open_max = pos n;
    } in
      (m : Process) × (g : Process) × (daemonize a (some dir) (some ident) p
        ≡ exits 0 p ∷ exits 1 m ∷ returns 0 g ∷ [])
      × ((m.session ≡ c) × (m.leads ≡ true))
      × ((g.pid ≡ d) × (g.session ≡ c) × (g.leads ≡ false))
      × (g.ignored ≡ sighup ∷ sigchld ∷ p.ignored)
      × ((g.umask ≡ 0) × (g.wd ≡ dir) × (g.log ≡ some ident))
      × ((fd : ℕ) → g.is_open fd ≡ (if leb 1 fd && leb fd n then false else p.is_open fd))
unfolding daemonize settle lead
daemonize_lem c d n sid cd dir ident p =
    let q : Process = record p {
      pid = d;
      session = c;
      leads = false;
      ignored = sighup ∷ sigchld ∷ p.ignored;
      umask = 0;
      wd = dir;
    } in
    let (closed, kept) = close_down_lem n q in
    (
      record p { pid = c; session = c; leads = true; ignored = sighup ∷ sigchld ∷ p.ignored },
      record (close_down n q) { log = some ident },
      refl,
      (refl, refl),
      (ap (λ t. t.pid) kept, ap (λ t. t.session) kept, ap (λ t. t.leads) kept),
      ap (λ t. t.ignored) kept,
      (ap (λ t. t.umask) kept, ap (λ t. t.wd) kept, refl),
      closed,
    )

abbrev pub returned : List Fate → ℕ
returned [] = 0
returned (exits n p ∷ fs) = returned fs
returned (returns n p ∷ fs) = suc (returned fs)

-- Whether fork, setsid, the second fork or chdir, where there is a directory, returns its error.
abbrev pub fails : Answers → Option String → Bool
fails a wd =
    (elim a.fork1 [ none ↦ true | some c ↦ false ])
    || (is_negative a.setsid
        || ((elim a.fork2 [ none ↦ true | some c ↦ false ])
            || (elim wd [ none ↦ false | some dir ↦ is_negative a.chdir ])))

-- Daemonize returns to exactly one process where fork, setsid, fork and chdir succeed, and to none
-- where one of them fails.
pub returned-daemonize :
    (a : Answers) (wd ident : Option String) (p : Process)
    → returned (daemonize a wd ident p) ≡ (if fails a wd then 0 else 1)
unfolding daemonize settle lead
returned-daemonize a wd ident p = ground arith
