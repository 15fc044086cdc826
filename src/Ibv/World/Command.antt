-- ===== src/Ibv/World/Command.antt =====
-- The commands that the model of c/ibtest/ibv-rc.c is written with: what they answer, and what they do
-- to the state of a run.
use codelib.Base.{
  ℕ, suc, Bool, true, false, not, ◌&&◌, ◌||◌, List, [], ◌∷◌, ltb, ◌==◌, if◌then◌else◌,
}
use codelib.Base.Int.{ℤ}
use codelib.Ibv.World.Data.{
  Ptr, null, Config, Resources, Event, Kind, kind_eq, Env, World, context, pd, cq, buf, mr, qp,
  chan,
}

pub data Run (A : Type 0) : Type 0 where
  ok : A → World → Run A
  exited : ℕ → World → Run A
  out_of_fuel : World → Run A

abbrev pub Cmd : Type 0 → Type 0
Cmd A = World → Run A

abbrev pub pure : {A : Type 0} → A → Cmd A
pure = ok

module _ {A B : Type 0} where
  abbrev pub and_then : Run A → (A → Cmd B) → Run B
  and_then (ok a w) k = k a w
  and_then (exited n w) k = exited n w
  and_then (out_of_fuel w) k = out_of_fuel w

  infixl 5 ◌>>=◌ ◌>>◌
  abbrev pub ◌>>=◌ : Cmd A → (A → Cmd B) → Cmd B
  m >>= k = λ w. and_then (m w) k

  abbrev pub ◌>>◌ : Cmd A → Cmd B → Cmd B
  m >> n = m >>= λ _. n

-- A call of a library: its answer, and one call more made.
abbrev pub call : {A : Type 0} → (Env → ℕ → A) → Cmd A
call f w = ok (f w.env w.tick) (record w { tick = suc w.tick })

abbrev pub ask : {A : Type 0} → (World → A) → Cmd A
ask f w = ok (f w) w

abbrev pub modify : (World → World) → Cmd (Unit {0})
modify f w = ok tt (f w)

abbrev pub set_res : (Resources → Resources) → Cmd (Unit {0})
set_res f = modify λ w. record w { res = f w.res }

abbrev pub set_config : (Config → Config) → Cmd (Unit {0})
set_config f = modify λ w. record w { config = f w.config }

abbrev pub note : Event → Cmd (Unit {0})
note e = modify λ w. record w { log = e ∷ w.log }

-- Reports a misuse where the test fails.
abbrev pub require : (World → Bool) → Cmd (Unit {0})
require test = modify λ w. record w { misuse = w.misuse || not (test w) }

-- Reports an overrun where the bytes that an array needs are more than it has.
abbrev pub require_room : (World → ℕ) → (World → ℕ) → Cmd (Unit {0})
require_room needed room = modify λ w. record w { overrun = w.overrun || ltb (room w) (needed w) }

abbrev pub has : ℕ → List ℕ → Bool
has h [] = false
has h (x ∷ xs) = (h == x) || has h xs

abbrev pub remove : ℕ → List ℕ → List ℕ
remove h [] = []
remove h (x ∷ xs) = let rest = remove h xs in if h == x then xs else x ∷ rest

abbrev pub is_nil : List ℕ → Bool
is_nil [] = true
is_nil (x ∷ xs) = false

abbrev pub set_live : Kind → List ℕ → World → World
set_live k hs w = record w { live = λ j. if kind_eq j k then hs else w.live j }

-- No object is held that depends on those of the kind: a queue pair and a memory region belong
-- to a protection domain, a queue pair completes to a completion queue, a completion queue may notify a channel, a region covers a buffer,
-- and what belongs to a device goes by its context.
abbrev pub no_dependants : Kind → World → Bool
no_dependants context w = is_nil (w.live pd) && is_nil (w.live cq)
no_dependants pd w = is_nil (w.live mr) && is_nil (w.live qp)
no_dependants cq w = is_nil (w.live qp)
no_dependants chan w = is_nil (w.live cq)
no_dependants buf w = is_nil (w.live mr)
no_dependants _ w = true

abbrev pub exit : {A : Type 0} → ℕ → Cmd A
exit code w = exited code w

-- The object is used.
abbrev pub uses : Kind → ℕ → Cmd (Unit {0})
uses k h = require λ w. has h (w.live k)

-- What a call returned is held from then on, unless it is NULL.
abbrev pub hold : Kind → Ptr → Cmd (Unit {0})
hold k h = if h == null then pure tt else modify λ w. set_live k (h ∷ w.live k) w

-- A call that hands out an object, or NULL.
abbrev pub acquire : Kind → (Env → ℕ → Ptr) → Cmd Ptr
acquire k f = do h ← call f; hold k h; pure h

-- A call that gives an object back.
abbrev pub release : Kind → ℕ → Cmd ℤ
release k h = do
  require λ w. has h (w.live k) && no_dependants k w
  modify λ w. set_live k (remove h (w.live k)) w
  call λ e. e.release k
