-- ===== src/Programs/Master/Account.antt =====
-- The account of the kernel's requests, and what each gateway of the master does to it.
use greencloud.Base.{
  ℕ, ◌+◌, ◌≡◌, refl, ap, ◌∙◌, sym, subst, Bool, [], ◌∷◌, ◌++◌, Bytes, Option, none, some, Outcome,
  done, arith, ◌⊎◌, Outcome-cases, List-cases, inl, inr, All, if◌then◌else◌,
}
use greencloud.Data.{DriverData, FactoryKey, FactoryKey-discrete}
use greencloud.Data.Keys
use greencloud.Cloud.Reply.{create_data_from_buff, gateway_read}
use greencloud.Cloud.Reply as Reply
use greencloud.Engine.Factory.{creator}
use greencloud.Engine.Gateways.{TaskInfo, null, info, read_stdin}
use greencloud.Engine.Loop.{Status, serve}
use greencloud.Programs.Master.{
  ReTask, stdin_exit, stdin_ignore, World, Gate, Engine, Setting, stdin_read, slave_read,
  stdin_gateway, nbd_gateway, slave_gateway,
}
use greencloud.Programs.Master.Creators.{
  task_table, Made, Holds, holds_read, holds_write, holds_disconnect, holds_flush, holds_trim,
  holds_bad_request, holds_replay, exit-Made, ignore-Made,
}
use greencloud.Programs.Master.Conserved.{
  requests, create_data-table, info_of, task_of, held, tasks-append,
}

-- The gateways of the master.
pub data Ours (setting : Setting) : Gate → Type 0 where
  our_stdin : Ours setting (stdin_gateway setting)
  our_nbd : (fd : ℕ) → Ours setting (nbd_gateway setting fd)
  our_slave : (fd : ℕ) → Ours setting (slave_gateway setting fd)

-- The requests received are those held, by any weight of their handles.
pub record Accounted (setting : Setting) (f : Bytes → ℕ) (e : Engine) : Type 0 where
  pub balance : requests f e.world.received ≡ held f e.tasks e.world
  pub factory : e.factory ≡ task_table
  pub gates : All (Ours setting) e.gateways

pub task_of-Holds :
    (f : Bytes → ℕ) (make : TaskInfo → ReTask)
    → Holds make
    → (i : TaskInfo) → task_of f (make i) ≡ info_of f i
task_of-Holds f _ holds_read i = refl
task_of-Holds f _ holds_write i = refl
task_of-Holds f _ holds_disconnect i = refl
task_of-Holds f _ holds_flush i = refl
task_of-Holds f _ holds_trim i = refl
task_of-Holds f _ holds_bad_request i = refl
task_of-Holds f _ holds_replay i = refl

-- The engine behind one gateway, when it is known what was read and what the factory makes.
abbrev served : Engine → World → Bool → ReTask → Engine
served e w stops t = record e {
  world = w;
  status = if stops then Status.stop else e.status;
  tasks = e.tasks ++ t ∷ [];
}

abbrev Serve : Gate → Engine → Outcome Engine
Serve g e = serve World FactoryKey TaskInfo ReTask FactoryKey-discrete g e

serve_known :
    (g : Gate) (e : Engine) (w : World) (stops : Bool) (k : FactoryKey) (i : TaskInfo)
    (make : TaskInfo → ReTask)
    → e.factory ≡ task_table
    → g.read e.world ≡ done (w, stops, k, i)
    → Made k make
    → Serve g e ≡ done (served e w stops (make i))
unfolding serve
serve_known g e w stops k i make factory came made =
    let found : creator FactoryKey-discrete e.factory k ≡ done make =
      ap (λ t. creator FactoryKey-discrete t k) factory ∙ made in
    ground arith

-- A gateway that brings a task of so much, and takes no more from the rest, keeps the account.
served-Accounted :
    (setting : Setting) (f : Bytes → ℕ) (e : Engine) (w : World) (stops : Bool) (t : ReTask)
    → requests f w.received + held f [] e.world
      ≡ task_of f t + held f [] w + requests f e.world.received
    → Accounted setting f e
    → Accounted setting f (served e w stops t)
served-Accounted setting f e w stops t same a =
    let sum = tasks-append f e.tasks t in
    let old = a.balance in record { balance = omega arith; factory = a.factory; gates = a.gates }

pub serve-Accounted :
    (setting : Setting) (f : Bytes → ℕ) (g : Gate) (e e' : Engine) (w : World) (stops : Bool)
    (k : FactoryKey) (i : TaskInfo) (make : TaskInfo → ReTask)
    → g.read e.world ≡ done (w, stops, k, i)
    → Made k make
    → requests f w.received + held f [] e.world
      ≡ task_of f (make i) + held f [] w + requests f e.world.received
    → Serve g e ≡ done e'
    → Accounted setting f e
    → Accounted setting f e'
serve-Accounted setting f g e e' w stops k i make came made same eq a =
    let now = serve_known g e w stops k i make a.factory came made in
    let shape : served e w stops (make i) ≡ e' = ground arith in
    subst (Accounted setting f) shape (served-Accounted setting f e w stops (make i) same a)

pub serve_failed :
    (g : Gate) (e e' : Engine)
    → Serve g e ≡ done e'
    → (w : World) × (stops : Bool) × (k : FactoryKey) × (i : TaskInfo) × (g.read e.world
        ≡ done (w, stops, k, i))
unfolding serve
serve_failed g e e' eq = elim (Outcome-cases (g.read e.world)) [
  | inl ((w, stops, k, i), came) ↦ (w, stops, k, i, came)
  | inr (x, failed) ↦ absurd (ground arith)
]

read_stdin-cases :
    (byte : ℕ) (came : Option Bytes) (stops : Bool) (k : FactoryKey) (i : TaskInfo)
    → read_stdin byte came ≡ done (stops, k, i)
    → ((k ≡ Keys.q_exit) × (i ≡ info none)) ⊎ ((k ≡ Keys.ignore) × (i ≡ null))
unfolding read_stdin
read_stdin-cases byte none stops k i e = absurd (ground arith)
read_stdin-cases byte (some []) stops k i e = ground arith
read_stdin-cases byte (some (c ∷ cs)) stops k i e = ground arith

module _ (setting : Setting) where
  -- Standard input brings tasks that hold no request.
  pub stdin_read_lem :
      (f : Bytes → ℕ) (w w' : World) (stops : Bool) (k : FactoryKey) (i : TaskInfo)
      → stdin_read setting w ≡ done (w', stops, k, i)
      → (make : TaskInfo → ReTask) × Made k make
        × (task_of f (make i) ≡ 0)
        × (w'.received ≡ w.received)
        × (held f [] w' ≡ held f [] w)
  unfolding stdin_read
  stdin_read_lem f w w' stops k i e = elim (List-cases w.stdin) [
    | inl nothing ↦ absurd (ground arith)
    | inr ((byte, came), rest, shape) ↦ elim (Outcome-cases (read_stdin byte came)) [
      | inl ((stops', k', i'), read) ↦
          let same_key : k' ≡ k = ground arith in
          let same_info : i' ≡ i = ground arith in
          let shared : record w { stdin = rest } ≡ w' = ground arith in
          let left : w'.received ≡ w.received = ap (λ v. v.received) (sym shared) in
          let kept : held f [] w' ≡ held f [] w = ap (held f []) (sym shared) in
          elim (read_stdin-cases byte came stops' k' i' read) [
            | inl (exits, given) ↦ (
              stdin_exit,
              subst (λ x. Made x stdin_exit) (sym exits ∙ same_key) exit-Made,
              refl,
              left,
              kept,
            )
            | inr (ignores, given) ↦ (
              stdin_ignore,
              subst (λ x. Made x stdin_ignore) (sym ignores ∙ same_key) ignore-Made,
              refl,
              left,
              kept,
            )
          ]
      | inr (x, failed) ↦ absurd (ground arith)
    ]
  ]

  pub slave_read_lem :
      (f : Bytes → ℕ) (w w' : World) (stops : Bool) (k : FactoryKey) (i : TaskInfo)
      → slave_read setting w ≡ done (w', stops, k, i)
      → (d : DriverData) × (k ≡ Keys.replay)
        × (i ≡ info (some d))
        × (w'.received ≡ w.received)
        × (held f [] w ≡ f d.handler + held f [] w')
  unfolding slave_read gateway_read
  slave_read_lem f w w' stops k i e = elim (List-cases w.replies) [
    | inl nothing ↦ absurd (ground arith)
    | inr (none, rest, shape) ↦ absurd (ground arith)
    | inr (some datagram, rest, shape) ↦
        elim (Outcome-cases
          (create_data_from_buff setting.junk setting.blank w.cloud (Reply.received datagram))) [
            | inl ((c, d), made) ↦
                let moved =
                  create_data-table f setting.junk setting.blank w.cloud c (Reply.received datagram)
                    d made in
                let shared : record w { cloud = c; replies = rest } ≡ w' = ground arith in
                let kept : held f [] w' ≡ held f [] (record w { cloud = c; replies = rest }) =
                  ap (held f []) (sym shared) in
                (d, ground arith, ground arith, ap (λ v. v.received) (sym shared), omega arith)
            | inr (x, failed) ↦ absurd (ground arith)
          ]
  ]
