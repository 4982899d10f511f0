-- ===== src/Launch/Spawn.antt =====
-- What a launch starts, and how a change of the image slot shows in the next launch.
use uv_k5_v3_emulator.Common.{
  ℕ, zero, suc, ◌≡◌, ◌↔◌, ◌⊎◌, inl, inr, refl, arith, Bool, true, false, Option, some, List, [],
  ◌∷◌, ◌&&◌, not, Option-cases, get_elem?, Bool-cases,
}
use uv_k5_v3_emulator.Common.Text.{Text}
use uv_k5_v3_emulator.Common.Result.{Result, ok, err}
use uv_k5_v3_emulator.Image.{ImageError, ImageInfo, Files, detect}
use uv_k5_v3_emulator.Image.Slot.{ImageSlot, Choice, set, stored, by_path, by_info}
use uv_k5_v3_emulator.Launch.{
  Launch, LaunchError, launch, resolve_image, Elf, by_slot, FlashSlot, BootKey, qmp_argument, unix,
  has_colon, argv_of, Probe, wait_for_socket, is_tcp, probe_ready, QmpArgument, tcp, flash_image,
  key_variables,
}
use uv_k5_v3_emulator.Launch.Endpoint.{rpartition-has_colon}

module _ (qemu : Text) (flash : FlashSlot) (key : Option BootKey) (qmp_path : Text) (gdb_port : ℕ)
    (serial_port : Option ℕ) (socket_exists : Bool) where
  abbrev boot : ImageSlot → Result LaunchError Launch
  boot slot = launch qemu flash (by_slot slot) key qmp_path gdb_port serial_port socket_exists

  -- What the result of a `set` means for the launch that follows.
  abbrev pub Shows : ImageSlot → Result ImageError ImageInfo × ImageSlot → Type 0
  Shows slot (result, slot') =
      ((info : ImageInfo)
        → result ≡ ok info
        → (l : Launch) × (boot slot' ≡ ok l)
          × (l.argv ≡ argv_of qemu info.path qmp_path gdb_port serial_port))
      × ((e : ImageError) → result ≡ err e → boot slot' ≡ boot slot)

  stored-Shows :
      (slot : ImageSlot) (result : Result ImageError ImageInfo) → Shows slot (stored slot result)
  unfolding launch resolve_image
  stored-Shows slot (ok i) = (
    λ info h.
        let same : i ≡ info = ground (arith, h) in
        rw (← same) (
          record {
            unlinks = not (has_colon qmp_path) && socket_exists;
            argv = argv_of qemu i.path qmp_path gdb_port serial_port;
            env = flash_image flash.path ∷ key_variables key;
          },
          refl,
          refl,
        ),
    λ e h. absurd (ground (arith, h)),
  )
  stored-Shows slot (err x) = (λ info h. absurd (ground (arith, h)), λ e h. refl)

  -- An image that is accepted is the kernel of the next launch. One that is refused leaves the next
  -- launch as it was.
  pub launch-set :
      (files : Files) (choice : Choice) (slot : ImageSlot) → Shows slot (set files choice slot)
  unfolding set
  launch-set files (by_path path) slot = stored-Shows slot (detect files path)
  launch-set files (by_info info) slot = stored-Shows slot (ok info)

  -- A launch removes the file of the socket only for a Unix endpoint, and only if it exists.
  pub launch-unlinks :
      (elf : Elf) (l : Launch)
      → launch qemu flash elf key qmp_path gdb_port serial_port socket_exists ≡ ok l
      → l.unlinks ≡ true
      → (qmp_argument qmp_path ≡ unix qmp_path) × (socket_exists ≡ true)
  unfolding launch
  launch-unlinks elf l h u = elim (Option-cases (resolve_image elf).0) [
    | inl e ↦ absurd (ground (arith, e, h))
    | inr (path, e) ↦
        let no_colon : has_colon qmp_path ≡ false = ground (arith, e, h, u) in
        let parts = rpartition-has_colon qmp_path no_colon in
        (unfold qmp_argument in rw parts refl, ground (arith, e, h, u))
  ]

ready_iff :
    (a : QmpArgument) (p : Probe)
    → (probe_ready a p ≡ true) ↔ ((p.accepts ≡ true) × ((is_tcp a ≡ true) ⊎ (p.exists ≡ true)))
ready_iff (tcp host port) p = (λ h. (h, inl refl), λ q. q.0)
ready_iff (unix endpoint) p = (
  λ h. (ground arith, inr (ground arith)),
  λ q. elim q.1 [ inl e ↦ absurd (ground (arith, e)) | inr e ↦ ground (arith, e, q.0) ],
)

ready_wait :
    (endpoint : Text) (probes : List Probe) (i : ℕ) (p : Probe)
    → get_elem? probes i ≡ some p
    → probe_ready (qmp_argument endpoint) p ≡ true
    → wait_for_socket endpoint probes ≡ true
unfolding wait_for_socket get_elem?
ready_wait endpoint [] i p at ready = absurd (ground (arith, at))
ready_wait endpoint (q ∷ ps) zero p at ready =
    let same : q ≡ p = ground (arith, at) in rw (same, ready) refl
ready_wait endpoint (q ∷ ps) (suc i) p at ready =
    let rest = ready_wait endpoint ps i p at ready in ground (arith, rest)

-- The wait succeeds exactly if before the deadline a connect was accepted, for a Unix endpoint at a
-- path that exists: a file that a dead emulator left behind is not enough.
pub wait_for_socket-true_iff :
    (endpoint : Text) (probes : List Probe)
    → (wait_for_socket endpoint probes ≡ true) ↔ (
        (i : ℕ) × (p : Probe) × (get_elem? probes i ≡ some p)
        × (p.accepts ≡ true)
        × ((is_tcp (qmp_argument endpoint) ≡ true) ⊎ (p.exists ≡ true)))
unfolding wait_for_socket get_elem?
wait_for_socket-true_iff endpoint [] =
    (λ h. absurd (ground arith), λ q. let (i, p, at, _, _) = q in absurd (ground (arith, at)))
wait_for_socket-true_iff endpoint (p ∷ ps) = (
  λ h. elim (Bool-cases (probe_ready (qmp_argument endpoint) p)) [
    | inl e ↦
        let (accepts, there) = (ready_iff (qmp_argument endpoint) p).0 e in
        (zero, p, refl, accepts, there)
    | inr e ↦
        let (i, q, at, accepts, there) =
          (wait_for_socket-true_iff endpoint ps).0 (ground (arith, e, h)) in
        (suc i, q, at, accepts, there)
  ],
  λ q.
      let (i, p', at, accepts, there) = q in
      ready_wait endpoint (p ∷ ps) i p' at
        ((ready_iff (qmp_argument endpoint) p').1 (accepts, there)),
)
