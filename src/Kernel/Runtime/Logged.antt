-- ===== src/Kernel/Runtime/Logged.antt =====
-- The ports with a log of the writes: which effects were begun, run and committed, in order.
use boatstack.Base.{ℕ, ◌≡◌, refl, sym, ap, subst, ◌∙◌, List, [], ◌∷◌, ◌++◌}
use boatstack.Kernel.Types.{ControlState, Receipt}
use boatstack.Kernel.Error.{Error, Result, ok, err}
use boatstack.Kernel.Exec.{Exec, Keeps, continue, ◌>>=◌}
use boatstack.Kernel.Ports.{Ports, Runtime, Operation}

pub data Write : Type 0 where
  begin_effect : ℕ → ControlState → Write
  execute : Operation → Write
  commit_transition : ℕ → ControlState → Receipt → Write

pub record Logged (W : Type 0) : Type 0 where
  pub log : List Write
  pub world : W

module _ {W : Type 0} where
  -- a port that is called and not logged
  abbrev quietly : {A : Type 0} → Exec W A → Exec (Logged W) A
  quietly m w = let (r, w') = m w.world in (r, record w { world = w' })

  abbrev loudly : {A : Type 0} → Write → Exec W A → Exec (Logged W) A
  loudly call m w = let (r, w') = m w.world in (r, record { log = w.log ++ call ∷ []; world = w' })

  abbrev pub logged_ports : Ports W → Ports (Logged W)
  logged_ports p = record {
    observe = λ id. quietly (p.observe id);
    admissible = λ e. quietly (p.admissible e);
    verify = λ e facts o. quietly (p.verify e facts o);
    execute = λ op. loudly (Write.execute op) (p.execute op);
    required_by_mechanism = p.required_by_mechanism;
    load = λ id. quietly (p.load id);
    begin_effect = λ n s. loudly (Write.begin_effect n s) (p.begin_effect n s);
    commit_transition = λ n s r. loudly (Write.commit_transition n s r) (p.commit_transition n s r);
    acquire = λ id. quietly (p.acquire id);
    unlock = λ id w. record w { world = p.unlock id w.world };
    now = λ w. let (t, w') = p.now w.world in (t, record w { world = w' });
  }

  abbrev pub logged : Runtime W → Runtime (Logged W)
  logged r = record { program = r.program; codec = r.codec; ports = logged_ports r.ports }

abbrev pub log_of : {W : Type 0} → Logged W → List Write
log_of w = w.log

-- The code writes nothing.
abbrev pub Quiet : {W A : Type 0} → Exec (Logged W) A → Type 0
Quiet m = Keeps log_of m

-- Run after the writes `begun`, the code ends in a result and a log that satisfy `P`.
pub record Ends {W B : Type 0} (P : Result B → List Write → Type 0) (begun : List Write)
    (m : Exec (Logged W) B) : Type 0 where
  pub at : (w : Logged W) → w.log ≡ begun → P (m w).0 (m w).1.log

module _ {W A B : Type 0} {P : Result B → List Write → Type 0} {begun : List Write} where
  Ends-continue :
      (r : Result A) (f : A → Exec (Logged W) B) (w : Logged W)
      → w.log ≡ begun
      → ((e : Error) → r ≡ err e → P (err e) begun)
      → ((x : A) → r ≡ ok x → Ends P begun (f x))
      → P (continue r f w).0 (continue r f w).1.log
  Ends-continue (ok a) f w same fails goes = (goes a refl).at w same
  Ends-continue (err e) f w same fails goes = subst (P (err e)) (sym same) (fails e refl)

  -- A step that writes nothing.
  pub Ends-Quiet :
      (m : Exec (Logged W) A) (f : A → Exec (Logged W) B)
      → Quiet m
      → ((w : Logged W) (e : Error) → (m w).0 ≡ err e → P (err e) begun)
      → ((w : Logged W) (x : A) → (m w).0 ≡ ok x → Ends P begun (f x))
      → Ends P begun (m >>= f)
  unfolding ◌>>=◌
  Ends-Quiet m f quiet fails goes = record {
    at = λ w same. Ends-continue (m w).0 f (m w).1 (quiet.at w ∙ same) (fails w) (goes w);
  }

module _ {W A B : Type 0} {P : Result B → List Write → Type 0} {begun : List Write} where
  -- A step that writes `call`.
  pub Ends-write :
      (call : Write) (m : Exec (Logged W) A) (f : A → Exec (Logged W) B)
      → ((w : Logged W) → (m w).1.log ≡ w.log ++ call ∷ [])
      → ((w : Logged W) (e : Error) → (m w).0 ≡ err e → P (err e) (begun ++ call ∷ []))
      → ((w : Logged W) (x : A) → (m w).0 ≡ ok x → Ends P (begun ++ call ∷ []) (f x))
      → Ends P begun (m >>= f)
  unfolding ◌>>=◌
  Ends-write call m f writes fails goes = record {
    at = λ w same.
        Ends-continue (m w).0 f (m w).1 (writes w ∙ ap (λ (l : List Write). l ++ call ∷ []) same)
          (fails w) (goes w);
  }
