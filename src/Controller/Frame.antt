-- ===== src/Controller/Frame.antt =====
-- Actions of a controller that leave a view of the cluster, such as one of its objects, as it is.
use otterscale_operator.Common.{◌≡◌, refl, ◌∙◌, Bool, true, false, if◌then◌else◌}
use otterscale_operator.Common.Exec.{Error, Result, ok, err, Exec, continue, ◌>>=◌}
use otterscale_operator.Api.Meta.{ObjectKey}
use otterscale_operator.Api.Owned.{Kind}
use otterscale_operator.Kube.{Kube}
use otterscale_operator.Controller.{Event, Recorder, absent, live, World, eventf, branch}

module _ (K : Kube) {X : Type 0} (look : K.State → X) where
  -- Whether it succeeds or fails, what is seen is as before.
  abbrev pub Keeps : {A : Type 0} → Exec (World K) A → Type 0
  Keeps m = (s : World K) → look (m s).1.cluster ≡ look s.cluster

  pub eventf-Keeps : (recorder : Recorder) (e : Event) → Keeps (eventf K recorder e)
  eventf-Keeps absent e = λ s. refl
  eventf-Keeps live e = λ s. refl

  module _ {A B : Type 0} where
    pub continue-Keeps :
        (f : A → Exec (World K) B)
        → ((a : A) → Keeps (f a))
        → (p : Result A × World K) → look (continue p f).1.cluster ≡ look p.1.cluster
    continue-Keeps f u (ok a, s) = u a s
    continue-Keeps f u (err e, s) = refl

    pub bind-Keeps :
        (m : Exec (World K) A) (f : A → Exec (World K) B)
        → Keeps m
        → ((a : A) → Keeps (f a))
        → Keeps (m >>= f)
    bind-Keeps m f um uf s = continue-Keeps f uf (m s) ∙ um s

    pub branch-Keeps :
        (handler : Error → Exec (World K) B) (next : A → Exec (World K) B)
        → ((e : Error) → Keeps (handler e))
        → ((a : A) → Keeps (next a))
        → (p : Result A × World K) → look (branch handler next p).1.cluster ≡ look p.1.cluster
    branch-Keeps handler next uh un (ok a, s) = un a s
    branch-Keeps handler next uh un (err e, s) = uh e s

  pub if-Keeps :
      {A : Type 0} (b : Bool) (m n : Exec (World K) A)
      → Keeps m
      → Keeps n
      → Keeps (if b then m else n)
  if-Keeps true m n um un = um
  if-Keeps false m n um un = un

-- The object is as before.
abbrev pub Unmoved : (K : Kube) → Kind → ObjectKey → {A : Type 0} → Exec (World K) A → Type 0
Unmoved K j other m = Keeps K (K.lookup j other) m
