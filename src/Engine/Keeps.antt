-- ===== src/Engine/Keeps.antt =====
-- What the loop of the engine keeps if each of its gateways does.
use greencloud.Base.{
  ℕ, ◌≡◌, ◌≢◌, subst, List, [], ◌∷◌, done, fails, bad_key, All, ◌==◌, arith, Outcome-cases,
  Bool-cases, inl, inr,
}
use greencloud.Engine.Loop.{
  GateWay, RequestEngine, Event, error, time_out, ready, serve, visit, on_event,
}

module _ (World Key Args Task : Type 0) (same : Discrete Key) where
  abbrev Gate : Type 0
  Gate = GateWay World Key Args Task same

  abbrev Engine : Type 0
  Engine = RequestEngine World Key Args Task same

  -- Serving a gateway keeps a property, and never fails in one way.
  abbrev pub Keeps : (Engine → Type 0) → Gate → Type 0
  Keeps P g = (e e' : Engine) → serve World Key Args Task same g e ≡ done e' → P e → P e'

  abbrev pub NeverBadKey : (Engine → Type 0) → Gate → Type 0
  NeverBadKey P g = (e : Engine) → P e → serve World Key Args Task same g e ≢ fails bad_key

  visit-Keeps :
      (P : Engine → Type 0) (gs : List Gate) (fd : ℕ) (e e' : Engine)
      → All (Keeps P) gs
      → visit World Key Args Task same gs fd e ≡ done e'
      → P e
      → P e'
  unfolding visit
  visit-Keeps P [] fd e e' sound eq p =
      let same_engine : e ≡ e' = ground arith in subst P same_engine p
  visit-Keeps P (g ∷ gs) fd e e' (this, others) eq p = elim (Bool-cases (g.fd == fd)) [
    | inl his ↦ elim (Outcome-cases (serve World Key Args Task same g e)) [
      | inl (m, served) ↦
          let later : visit World Key Args Task same gs fd m ≡ done e' = ground arith in
          visit-Keeps P gs fd m e' others later (this e m served p)
      | inr (f, failed) ↦ absurd (ground arith)
    ]
    | inr other ↦
        let later : visit World Key Args Task same gs fd e ≡ done e' = ground arith in
        visit-Keeps P gs fd e e' others later p
  ]

  visit-NeverBadKey :
      (P : Engine → Type 0) (gs : List Gate) (fd : ℕ) (e : Engine)
      → All (λ g. Keeps P g × NeverBadKey P g) gs
      → P e
      → visit World Key Args Task same gs fd e ≢ fails bad_key
  unfolding visit
  visit-NeverBadKey P [] fd e sound p eq = absurd (ground arith)
  visit-NeverBadKey P (g ∷ gs) fd e ((keeps, never), others) p eq = elim (Bool-cases (g.fd == fd)) [
    | inl his ↦ elim (Outcome-cases (serve World Key Args Task same g e)) [
      | inl (m, served) ↦
          let later : visit World Key Args Task same gs fd m ≡ fails bad_key = ground arith in
          visit-NeverBadKey P gs fd m others (keeps e m served p) later
      | inr (f, failed) ↦
          let bad : serve World Key Args Task same g e ≡ fails bad_key = ground arith in
          never e p bad
    ]
    | inr other ↦
        let later : visit World Key Args Task same gs fd e ≡ fails bad_key = ground arith in
        visit-NeverBadKey P gs fd e others p later
  ]

  pub on_event-Keeps :
      (P : Engine → Type 0) (v : Event) (e e' : Engine)
      → All (Keeps P) e.gateways
      → on_event World Key Args Task same v e ≡ done e'
      → P e
      → P e'
  unfolding on_event
  on_event-Keeps P (error n) e e' sound eq p = absurd (ground arith)
  on_event-Keeps P time_out e e' sound eq p =
      let same_engine : e ≡ e' = ground arith in subst P same_engine p
  on_event-Keeps P (ready fd) e e' sound eq p = visit-Keeps P e.gateways fd e e' sound eq p

  pub on_event-NeverBadKey :
      (P : Engine → Type 0) (v : Event) (e : Engine)
      → All (λ g. Keeps P g × NeverBadKey P g) e.gateways
      → P e
      → on_event World Key Args Task same v e ≢ fails bad_key
  unfolding on_event
  on_event-NeverBadKey P (error n) e sound p eq = absurd (ground arith)
  on_event-NeverBadKey P time_out e sound p eq = absurd (ground arith)
  on_event-NeverBadKey P (ready fd) e sound p eq = visit-NeverBadKey P e.gateways fd e sound p eq
