-- ===== src/Executor/Ws/Waits.antt =====
-- internal/executor/ws.go: awaitFrame returns, unless the connection goes on delivering frames that are not
-- waited for. Nothing is asked of the clock or of the connection.
use flowbench.Base.{
  ℕ, zero, suc, ℤ, pos, ◌-ℤ◌, leb_ℤ, List, [], ◌∷◌, Bool, true, false, ◌⊎◌, inl, inr, if◌then◌else◌,
  ◌≡◌, refl,
}
use flowbench.Ir.{Assertion, WsReceive}
use flowbench.Span.{Text}
use flowbench.Executor.Scope.{Scope, lookup_in}
use flowbench.Executor.Outside.{
  Outside, ws_closed, ws_broken, Received, received, receive_failed, Asserted, passes, fails,
  broken,
}
use flowbench.Executor.Iteration.Steps.{if_cases}
use flowbench.Executor.Ws.Await.{
  Awaited, timed_out, lost, still_waiting, Matched, matched, skips, unreadable, frame_matches,
  skip_frame, of_verdict, by_match, by_received, await_frame,
}

abbrev pub is_waiting : {Frame : Type 0} → Awaited Frame → Bool
is_waiting still_waiting = true
is_waiting _ = false

module _ (o : Outside) (rec : WsReceive) (conn : ℕ) (scope : Scope o.V) (deadline : ℤ) where
  open o use {W, Frame, since, receive, of_frame, check}

  -- A condition fails of the frame, and those in front of it hold.
  pub data Unmet (frame : Frame) : List Assertion → Type 0 where
    this_one :
        (m : Assertion) (more : List Assertion) (why : Text)
        → check m (of_frame frame (pos 0)) (lookup_in scope) ≡ fails why
        → Unmet frame (m ∷ more)
    a_later :
        (m : Assertion) {more : List Assertion}
        → check m (of_frame frame (pos 0)) (lookup_in scope) ≡ passes
        → Unmet frame more
        → Unmet frame (m ∷ more)

  -- From a world on, so many frames arrive one behind the other, each received while time remains to the
  -- deadline, and none of them is the one that is waited for.
  pub data Flooded : ℕ → W → Type 0 where
    enough : (w : W) → Flooded zero w
    one_more :
        {n : ℕ} (w : W) (frame : Frame)
        → leb_ℤ (deadline -ℤ (since w).0) (pos 0) ≡ false
        → (receive conn (deadline -ℤ (since w).0) (since w).1).0 ≡ received frame
        → Unmet frame rec.match_frames
        → Flooded n (receive conn (deadline -ℤ (since w).0) (since w).1).1
        → Flooded (suc n) w

  skips-Unmet :
      (frame : Frame) (ms : List Assertion)
      → frame_matches o ms frame scope ≡ skips
      → Unmet frame ms
  unfolding frame_matches
  skips-Unmet frame [] h = cc
  skips-Unmet frame (m ∷ more) h =
      by_check (check m (of_frame frame (pos 0)) (lookup_in scope)) refl (skips-Unmet frame more) h
    where
      by_check :
          (v : Asserted)
          → check m (of_frame frame (pos 0)) (lookup_in scope) ≡ v
          → (frame_matches o more frame scope ≡ skips → Unmet frame more)
          → of_verdict o v (frame_matches o more frame scope) ≡ skips
          → Unmet frame (m ∷ more)
      by_check passes e k h = a_later m e (k h)
      by_check (fails why) e k h = this_one m more why e
      by_check (broken why) e k h = cc

  Ends : Awaited Frame × W → Type 0
  Ends r = is_waiting r.0 ≡ false

  -- The wait ends with what is received, or with what is waited for behind a frame that is skipped.
  received-Ends :
      (n : ℕ) (came : Received Frame) (skipped : List Text) (w : W)
      (rest : List Text → Awaited Frame × W)
      → ((more : List Text) → Ends (rest more) ⊎ Flooded n w)
      → Ends (by_received o came rec scope deadline skipped w rest)
        ⊎ ((frame : Frame) × (came ≡ received frame) × Unmet frame rec.match_frames × Flooded n w)
  unfolding Ends
  received-Ends n (receive_failed (ws_closed why code)) skipped w rest h = inl refl
  received-Ends n (receive_failed (ws_broken true why)) skipped w rest h = inl refl
  received-Ends n (receive_failed (ws_broken false why)) skipped w rest h =
      inl (by_late (leb_ℤ deadline (since w).0))
    where
      by_late :
          (b : Bool)
          → is_waiting {Frame = Frame} (if b then timed_out skipped else lost (ws_broken false why))
            ≡ false
      by_late true = refl
      by_late false = refl
  received-Ends n (received frame) skipped w rest h =
      by_matched (frame_matches o rec.match_frames frame scope) refl
        (h (skip_frame o skipped frame))
    where
      by_matched :
          (m : Matched)
          → frame_matches o rec.match_frames frame scope ≡ m
          → (is_waiting (rest (skip_frame o skipped frame)).0 ≡ false) ⊎ Flooded n w
          → (is_waiting (by_match o m frame w (rest (skip_frame o skipped frame))).0 ≡ false)
            ⊎ ((f : Frame) × (received frame ≡ received f) × Unmet f rec.match_frames × Flooded n w)
      by_matched matched e k = inl refl
      by_matched (unreadable why) e k = inl refl
      by_matched skips e (inl done) = inl done
      by_matched skips e (inr on) = inr (frame, refl, skips-Unmet frame rec.match_frames e, on)

  -- With fuel for `n` receives, awaitFrame ends, with a frame, with the deadline passed or with the connection
  -- lost, unless `n` frames in a row arrive while time remains and fail a condition: it goes on only behind
  -- such a frame, whatever the clock and the connection do.
  pub await_frame_ends :
      (n : ℕ) (skipped : List Text) (w : W)
      → (is_waiting (await_frame o n rec conn deadline skipped scope w).0 ≡ false) ⊎ Flooded n w
  unfolding await_frame Ends
  await_frame_ends zero skipped w = inr (enough w)
  await_frame_ends (suc n) skipped w =
      let remaining = deadline -ℤ (since w).0 in
      let came = receive conn remaining (since w).1 in
      if_cases (λ (r : Awaited Frame × W). (is_waiting r.0 ≡ false) ⊎ Flooded (suc n) w)
        (leb_ℤ remaining (pos 0)) {x = (timed_out skipped, (since w).1)} (λ late. inl refl)
        (λ early.
          elim (received-Ends n came.0 skipped came.1
            (λ more. await_frame o n rec conn deadline more scope came.1)
            (λ more. await_frame_ends n more came.1)) [
              | inl done ↦ inl done
              | inr (frame, given, unmet, on) ↦ inr (one_more w frame early given unmet on)
            ])
