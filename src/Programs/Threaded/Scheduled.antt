-- ===== src/Programs/Threaded/Scheduled.antt =====
-- The threads against the serial device: what any schedule of them comes to.
use greencloud.Base.{
  ℕ, ◌≡◌, refl, ap, subst, ◌∙◌, append_assoc, false, if◌then◌else◌, inl, inr, List, [], ◌∷◌, ◌++◌,
  Bytes, some, Option-cases, Outcome, done, length, All, append-All,
}
use mathlib.Core.List.{Perm, perm_middle}
use mathlib.Core.List.Perm
use greencloud.Data.{DriverData, FactoryKey, is_disconnect}
use greencloud.Data.Keys
use greencloud.Storage.Iface.{BlockStore}
use greencloud.Programs.Serial.{Event, input, request, Setting}
use greencloud.Programs.Serial.Device.{answers, device, Serves, IsServed, length-answers}
use greencloud.Programs.Threaded.{
  Move, event, serves, sends, pick, World, operate, serve, send, wake, turn, step, run,
}
use greencloud.Programs.Threaded.Picks.{pick-append, pick-Perm}
use greencloud.Programs.Threaded.Commuting.{
  Independent, Same, Same-trans, device-told, device-pick, pick-All, pick-Independent,
}

-- Moves of threads, and of the main thread at a request that it reads without an error.
abbrev pub IsCall : Move → Type 0
IsCall (event (request (done d))) = Unit
IsCall (event _) = ⊥
IsCall (serves k) = Unit
IsCall (sends k) = Unit

-- The requests that a schedule reads, in their order.
abbrev pub asks : Move → List DriverData → List DriverData
asks (event (request (done d))) ds = d ∷ ds
asks _ ds = ds

abbrev pub asked : List Move → List DriverData
asked [] = []
asked (m ∷ ms) = asks m (asked ms)

Serves-on : (n : ℕ) (k : FactoryKey) (d : DriverData) → Serves n k d → is_disconnect k ≡ false
Serves-on n Keys.disconnect d h = absurd h
Serves-on n _ d h = refl

module _ (store : BlockStore) (setting : Setting) where
  open store use {State, bytes, write_lem, read_lem}

  pub operate_lem :
      (k : FactoryKey) (d : DriverData) (s : State)
      → Serves (length (bytes s)) k d
      → (s' : State) × (operate store setting k d s
          ≡ done (s', some (answers setting.junk k d (bytes s)).1))
        × (bytes s' ≡ (answers setting.junk k d (bytes s)).0)
  unfolding operate
  operate_lem Keys.read d s fits = (s, rw (read_lem setting.junk s d fits) refl, refl)
  operate_lem Keys.write d s (fits, full) =
      let (s', wrote, put) = write_lem s d fits full in (s', rw wrote refl, put)
  operate_lem Keys.disconnect d s fits = absurd fits
  operate_lem _ d s fits = (s, refl, refl)

  -- What the requests that were not served yet, and those to come, are to meet.
  pub record Ready (w : World store setting) (more : List DriverData) : Type 0 where
    pub on : w.over ≡ false
    pub fits : All (IsServed (length (bytes w.state))) (w.given ++ more)
    pub apart : Independent (w.given ++ more)

  pub step-on :
      (m : Move) (w : World store setting)
      → w.over ≡ false
      → step store setting m w ≡ turn store setting m w
  unfolding step
  step-on m w on = ap (λ b. if b then done w else turn store setting m w) on

  -- What the serial device comes to from here.
  abbrev pub ahead : World store setting → List DriverData → Bytes × List DriverData
  ahead w more = device setting.junk (w.given ++ more) (bytes w.state, w.served ++ w.replies)

  abbrev pub Goes : Move → World store setting → List DriverData → Type 0
  Goes m w more =
      (w' : World store setting) × (turn store setting m w ≡ done w')
      × Ready w' more
      × Same (ahead w' more) (ahead w (asks m more))

  serve-Goes :
      (k : ℕ) (w : World store setting) (more : List DriverData)
      → Ready w more
      → Goes (serves k) w more
  unfolding turn serve
  serve-Goes k w more r = elim (Option-cases (pick k w.given)) [
    | inl nothing ↦ (w, rw (serve, nothing) refl, r, (refl, Perm.refl _))
    | inr ((d, ds), found) ↦
        let (here, others) =
          pick-All (IsServed (length (bytes w.state))) k w.given ds more d found r.fits in
        let (s', operated, put) = operate_lem d.key d w.state here in
        let answer = (answers setting.junk d.key d (bytes w.state)).1 in
        (
          record w { state = s'; given = ds; served = answer ∷ w.served },
          rw (serve, found, operated) refl,
          record {
            on = r.on;
            fits = rw (put, length-answers setting.junk d.key d (bytes w.state)) others;
            apart = pick-Independent k w.given ds more d found r.apart;
          },
          rw put (
              device-pick setting.junk k (w.given ++ more) (ds ++ more) d (bytes w.state)
                (w.served ++ w.replies) (pick-append k w.given ds more d found) r.fits r.apart),
        )
  ]

  send-Goes :
      (k : ℕ) (w : World store setting) (more : List DriverData)
      → ((a : DriverData) → setting.send_reply a ≡ done tt)
      → Ready w more
      → Goes (sends k) w more
  unfolding turn send
  send-Goes k w more replies r = elim (Option-cases (pick k w.served)) [
    | inl nothing ↦ (w, rw (send, nothing) refl, r, (refl, Perm.refl _))
    | inr ((d, ds), found) ↦ (
      record w { served = ds; replies = d ∷ w.replies },
      rw (send, found, replies d) refl,
      record { on = r.on; fits = r.fits; apart = r.apart },
      device-told setting.junk (w.given ++ more) (bytes w.state) (ds ++ d ∷ w.replies)
          (w.served ++ w.replies)
          (Perm.trans (perm_middle ds w.replies)
            (Perm.append_right w.replies (pick-Perm k w.served ds d found))),
    )
  ]

  turn-Goes :
      (m : Move) (w : World store setting) (more : List DriverData)
      → ((a : DriverData) → setting.send_reply a ≡ done tt)
      → IsCall m
      → Ready w (asks m more)
      → Goes m w more
  unfolding turn wake
  turn-Goes (event (Event.error n)) w more replies call r = absurd call
  turn-Goes (event (input junk came)) w more replies call r = absurd call
  turn-Goes (event (request (Outcome.fails x))) w more replies call r = absurd call
  turn-Goes (event (request (done d))) w more replies call r =
      let (_, (here, _)) =
        append-All (IsServed (length (bytes w.state))) w.given (d ∷ more) r.fits in
      let moved : (w.given ++ d ∷ []) ++ more ≡ w.given ++ d ∷ more =
        append_assoc w.given (d ∷ []) more in
      (
        record w { given = w.given ++ d ∷ [] },
        rw (Serves-on (length (bytes w.state)) d.key d here) refl,
        record { on = r.on; fits = rw moved r.fits; apart = rw moved r.apart },
        rw moved (refl, Perm.refl _),
      )
  turn-Goes (serves k) w more replies call r = serve-Goes k w more r
  turn-Goes (sends k) w more replies call r = send-Goes k w more replies r

  settled :
      (w : World store setting) (more : List DriverData)
      → w.given ≡ []
      → w.served ≡ []
      → ahead w more ≡ device setting.junk more (bytes w.state, w.replies)
  settled w more idle quiet = rw (idle, quiet) refl

  -- Every schedule of calls succeeds, and leaves what remains ahead.
  pub run-Goes :
      (ms : List Move) (w : World store setting)
      → ((a : DriverData) → setting.send_reply a ≡ done tt)
      → All IsCall ms
      → Ready w (asked ms)
      → (w' : World store setting) × (run store setting ms w ≡ done w')
        × Ready w' []
        × Same (ahead w' []) (ahead w (asked ms))
  unfolding run
  run-Goes [] w replies calls r = (w, refl, r, (refl, Perm.refl _))
  run-Goes (m ∷ ms) w replies (call, calls) r =
      let (w₁, turned, r₁, same₁) = turn-Goes m w (asked ms) replies call r in
      let (w₂, later, r₂, same₂) = run-Goes ms w₁ replies calls r₁ in
      (
        w₂,
        rw (step-on m w r.on ∙ turned) later,
        r₂,
        Same-trans _ (ahead w₁ (asked ms)) _ same₂ same₁,
      )

  -- The threads against the serial device. Let requests lie inside the block, writes with the bytes
  -- they want written, none a disconnect, and let the range of a write meet that of no other read
  -- or write. Then for every schedule of the main thread, which reads them without an error, and of
  -- their threads, from a process that runs with no thread to no thread, the storage ends with the
  -- block that the serial device ends with, and the replies are its answers in some order. The
  -- driver is to send replies without an error.
  pub run-device :
      (ms : List Move) (w w' : World store setting)
      → ((a : DriverData) → setting.send_reply a ≡ done tt)
      → All IsCall ms
      → All (IsServed (length (bytes w.state))) (asked ms)
      → Independent (asked ms)
      → w.over ≡ false
      → w.given ≡ []
      → w.served ≡ []
      → run store setting ms w ≡ done w'
      → w'.given ≡ []
      → w'.served ≡ []
      → (bytes w'.state ≡ (device setting.junk (asked ms) (bytes w.state, w.replies)).0)
        × Perm w'.replies (device setting.junk (asked ms) (bytes w.state, w.replies)).1
  run-device ms w w' replies calls fits apart on idle quiet ran ended sent =
      let (w₁, did, r, same) =
        run-Goes ms w replies calls
          (record { on = on; fits = rw idle fits; apart = rw idle apart }) in
      let one : w₁ ≡ w' = cc in
      let from = settled w (asked ms) idle quiet in
      let here : ahead w₁ [] ≡ (bytes w'.state, w'.replies) = rw one (settled w' [] ended sent) in
      subst (λ s. Same s (device setting.junk (asked ms) (bytes w.state, w.replies))) here
        (subst (Same (ahead w₁ [])) from same)
