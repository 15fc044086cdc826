-- ===== src/Ibv/Owned.antt =====
-- Who holds what in a run of ibv-rc.c: the objects that are live are those that `res`, the local
-- list of devices and the configuration point to.
use codelib.Base.{
  ℕ, ◌≡◌, ◌≢◌, true, false, Option, none, some, List, [], ◌∷◌, ◌++◌, arith, ◌==◌, if◌then◌else◌,
}
use codelib.Base.Int.{ℤ, pos, negsuc, minus_one, is_negative}
use codelib.Ibv.World.{
  Ptr, null, HeapString, Resources, Env, World, Run, ok, exited, out_of_fuel, and_then, Cmd, sock,
  dev_list, context, pd, cq, buf, mr, qp, name, has,
}

-- What holds of a run when it goes on, and when it stops.
abbrev pub Outcome : {A : Type 0} → (A → World → Type 0) → (World → Type 0) → Run A → Type 0
Outcome P X (ok a w) = P a w
Outcome P X (exited n w) = X w
Outcome P X (out_of_fuel w) = X w

pub record Post {A : Type 0} (P : A → World → Type 0) (X : World → Type 0) (r : Run A)
    : Type 0 where
  pub outcome : Outcome P X r

bind_outcome :
    {A B : Type 0} {P : A → World → Type 0} {Q : B → World → Type 0} {X : World → Type 0}
    (r : Run A) {k : A → Cmd B}
    → Outcome P X r
    → ((a : A) (w : World) → P a w → Post Q X (k a w))
    → Post Q X (and_then r k)
bind_outcome (ok a w) h next = next a w h
bind_outcome (exited n w) h next = record { outcome = h }
bind_outcome (out_of_fuel w) h next = record { outcome = h }

module _ {A B : Type 0} {P : A → World → Type 0} {Q : B → World → Type 0} {X : World → Type 0}
    {r : Run A} where
  pub bind :
      {k : A → Cmd B}
      → Post P X r
      → ((a : A) (w : World) → P a w → Post Q X (k a w))
      → Post Q X (and_then r k)
  bind p next = bind_outcome r p.outcome next

mono_outcome :
    {A : Type 0} {P Q : A → World → Type 0} {X Y : World → Type 0} (r : Run A)
    → Outcome P X r
    → ((a : A) (w : World) → P a w → Q a w)
    → ((w : World) → X w → Y w)
    → Outcome Q Y r
mono_outcome (ok a w) h weaken stop = weaken a w h
mono_outcome (exited n w) h weaken stop = stop w h
mono_outcome (out_of_fuel w) h weaken stop = stop w h

module _ {A : Type 0} {P Q : A → World → Type 0} {X : World → Type 0} {r : Run A} where
  pub mono : Post P X r → ((a : A) (w : World) → P a w → Q a w) → Post Q X r
  mono p weaken = record { outcome = mono_outcome r p.outcome weaken (λ w x. x) }

module _ {A : Type 0} {P Q : A → World → Type 0} {X Y : World → Type 0} {r : Run A} where
  pub mono_both :
      Post P X r → ((a : A) (w : World) → P a w → Q a w) → ((w : World) → X w → Y w) → Post Q Y r
  mono_both p weaken stop = record { outcome = mono_outcome r p.outcome weaken stop }

both_outcome :
    {A : Type 0} (P Q : A → World → Type 0) (X Y : World → Type 0) (r : Run A)
    → Outcome P X r
    → Outcome Q Y r
    → Outcome (λ a w. P a w × Q a w) X r
both_outcome P Q X Y (ok a w) h k = (h, k)
both_outcome P Q X Y (exited n w) h k = h
both_outcome P Q X Y (out_of_fuel w) h k = h

module _ {A : Type 0} {P Q : A → World → Type 0} {X Y : World → Type 0} {r : Run A} where
  pub both : Post P X r → Post Q Y r → Post (λ a w. P a w × Q a w) X r
  both p q = record { outcome = both_outcome P Q X Y r p.outcome q.outcome }

-- What never stops satisfies any condition on stopping.
module _ {A : Type 0} {P : A → World → Type 0} {X : World → Type 0} {r : Run A} where
  pub weaken_stop : Post P (λ _. ⊥) r → Post P X r
  weaken_stop p = record { outcome = mono_outcome r p.outcome (λ a w h. h) (λ w x. absurd x) }

abbrev pub held : Ptr → List ℕ
held p = if p == null then [] else (p ∷ [])

abbrev pub held_fd : ℤ → List ℕ
held_fd (pos fd) = fd ∷ []
held_fd (negsuc n) = []

abbrev pub held_name : Option HeapString → List ℕ
held_name none = []
held_name (some s) = s.address ∷ []

-- `r` are the pointers to what is held, `dl` is the local list of devices, `sockets` and `names`
-- are what nothing points to any more.
pub record Owns (r : Resources) (dl : Ptr) (sockets names : List ℕ) (w : World) : Type 0 where
  pub qp_held : w.live qp ≡ held r.qp
  pub mr_held : w.live mr ≡ held r.mr
  pub buf_held : w.live buf ≡ held r.buf
  pub cq_held : w.live cq ≡ held r.cq
  pub pd_held : w.live pd ≡ held r.pd
  pub context_held : w.live context ≡ held r.ib_ctx
  pub list_held : w.live dev_list ≡ held dl
  pub sock_held : w.live sock ≡ held_fd r.sockfd ++ sockets
  pub name_held : w.live name ≡ held_name w.config.dev_name ++ names
  pub clean : w.misuse ≡ false

-- What the manual pages say of the answers that the code does not test.
pub record Documented (e : Env) : Type 0 where
  -- a socket, or -1
  pub socket_fails : (t : ℕ) → is_negative (e.socket t) ≡ true → e.socket t ≡ minus_one
  -- memory for a device's name can be had
  pub strdup_succeeds : (t : ℕ) → e.strdup t ≢ null

-- The libraries and the side of the connection stay what they are.
abbrev pub Same : World → World → Type 0
Same w v = (v.env ≡ w.env) × (v.config.server_name ≡ w.config.server_name)

-- The two ends of a run that asks nothing new of anybody.
pub record Kept (w v : World) : Type 0 where
  pub live_kept : v.live ≡ w.live
  pub misuse_kept : v.misuse ≡ w.misuse
  pub config_kept : v.config ≡ w.config
  pub env_kept : v.env ≡ w.env

pub Kept-trans : {u v w : World} → Kept u v → Kept v w → Kept u w
Kept-trans a b = ground arith

-- The descriptor is one that is held.
abbrev pub IsOpen : ℤ → World → Type 0
IsOpen (pos fd) w = has fd (w.live sock) ≡ true
IsOpen (negsuc n) w = ⊥

-- The pointers and the socket of `res` are cleared.
pub record IsEmpty (w : World) : Type 0 where
  pub qp_null : w.res.qp ≡ null
  pub mr_null : w.res.mr ≡ null
  pub buf_null : w.res.buf ≡ null
  pub cq_null : w.res.cq ≡ null
  pub pd_null : w.res.pd ≡ null
  pub context_null : w.res.ib_ctx ≡ null
  pub sock_closed : is_negative w.res.sockfd ≡ true

-- Every pointer of `res` leads to an object, and its socket is open.
pub record IsFull (w : World) : Type 0 where
  pub qp_made : w.res.qp ≢ null
  pub mr_made : w.res.mr ≢ null
  pub buf_made : w.res.buf ≢ null
  pub cq_made : w.res.cq ≢ null
  pub pd_made : w.res.pd ≢ null
  pub context_made : w.res.ib_ctx ≢ null
  pub sock_made : is_negative w.res.sockfd ≡ false

-- All of the resources are there, and nothing else but what is forgotten.
pub record Ready (sockets names : List ℕ) (w : World) : Type 0 where
  pub owns : Owns w.res null sockets names w
  pub full : IsFull w
