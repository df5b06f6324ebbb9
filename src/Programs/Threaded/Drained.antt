-- ===== src/Programs/Threaded/Drained.antt =====
-- The threads come to their ends.
use greencloud.Base.{
  suc, ◌+◌, ◌*◌, ◌≡◌, refl, sym, ap, ◌∙◌, false, List, [], ◌∷◌, append-nil, done, length, All,
  arith,
}
use greencloud.Data.{DriverData}
use greencloud.Storage.Iface.{BlockStore}
use greencloud.Programs.Serial.{Setting}
use greencloud.Programs.Serial.Device.{answers, IsServed, length-answers}
use greencloud.Programs.Threaded.{Move, serves, sends, World, serve, send, turn, run}
use greencloud.Programs.Threaded.Scheduled.{IsCall, asked, Ready, operate_lem, step-on, run-Goes}

module _ (store : BlockStore) (setting : Setting) where
  open store use {State, bytes}

  -- Moves that bring the threads to their ends, one for each that waits for the driver and two for
  -- each that waits for the storage.
  abbrev pub Ends : World store setting → Type 0
  Ends w =
      (ms : List Move) × (w' : World store setting) × (run store setting ms w ≡ done w')
      × (asked ms ≡ [])
      × (length ms ≡ 2 * length w.given + length w.served)
      × (w'.given ≡ [])
      × (w'.served ≡ [])
      × (length w'.replies ≡ length w.given + length w.served + length w.replies)

  sent-Ends :
      (ds : List DriverData) (w : World store setting)
      → ((a : DriverData) → setting.send_reply a ≡ done tt)
      → w.over ≡ false
      → w.given ≡ []
      → w.served ≡ ds
      → Ends w
  unfolding run turn send
  sent-Ends [] w replies on idle e =
      ([], w, refl, refl, rw (idle, e) refl, idle, e, omega (arith, ap length idle, ap length e))
  sent-Ends (d ∷ ds) w replies on idle e =
      let w₁ : World store setting = record w { served = ds; replies = d ∷ w.replies } in
      let (ms, w', ran, none_asked, many, no_given, no_served, told) =
        sent-Ends ds w₁ replies on idle refl in
      let first : turn store setting (sends 0) w ≡ done w₁ = rw (send, e, replies d) refl in
      let gone : length w.served ≡ suc (length ds) = ap length e in
      (
        sends 0 ∷ ms,
        w',
        rw (step-on store setting (sends 0) w on ∙ first) ran,
        none_asked,
        omega (arith, gone, many),
        no_given,
        no_served,
        omega (arith, gone, told),
      )

  served-Ends :
      (ds : List DriverData) (w : World store setting)
      → ((a : DriverData) → setting.send_reply a ≡ done tt)
      → w.over ≡ false
      → All (IsServed (length (bytes w.state))) ds
      → w.given ≡ ds
      → Ends w
  unfolding run turn serve
  served-Ends [] w replies on fits e = sent-Ends w.served w replies on e refl
  served-Ends (d ∷ ds) w replies on (here, others) e =
      let (s', operated, put) = operate_lem store setting d.key d w.state here in
      let answer = (answers setting.junk d.key d (bytes w.state)).1 in
      let w₁ : World store setting = record w {
        state = s';
        given = ds;
        served = answer ∷ w.served;
      } in
      let (ms, w', ran, none_asked, many, no_given, no_served, told) =
        served-Ends ds w₁ replies on
          (rw (put, length-answers setting.junk d.key d (bytes w.state)) others) refl in
      let first : turn store setting (serves 0) w ≡ done w₁ = rw (serve, e, operated) refl in
      let gone : length w.given ≡ suc (length ds) = ap length e in
      (
        serves 0 ∷ ms,
        w',
        rw (step-on store setting (serves 0) w on ∙ first) ran,
        none_asked,
        omega (arith, gone, many),
        no_given,
        no_served,
        omega (arith, gone, told),
      )

  -- No thread waits for ever. While the process runs, let the requests whose threads have not been
  -- at the storage, and those that a schedule reads, without an error, lie inside the block, writes
  -- with the bytes they want written, none a disconnect, the driver send replies without an error,
  -- and the range of a write meet that of no other read or write. Then the schedule succeeds, and
  -- so do the moves that bring all threads behind it to their ends: two for each that was not
  -- served and one for each that was; each of these threads sends one reply.
  pub run-Ends :
      (ms : List Move) (w : World store setting)
      → ((a : DriverData) → setting.send_reply a ≡ done tt)
      → All IsCall ms
      → Ready store setting w (asked ms)
      → (w₁ : World store setting) × (run store setting ms w ≡ done w₁) × Ends w₁
  run-Ends ms w replies calls r =
      let (w₁, ran, r₁, same) = run-Goes store setting ms w replies calls r in
      (w₁, ran, served-Ends w₁.given w₁ replies r₁.on (rw (sym (append-nil w₁.given)) r₁.fits) refl)
