-- ===== src/Launch/Tests.antt =====
-- A launch over a TCP endpoint, and one that clears a stale Unix socket.
use uv_k5_v3_emulator.Common.{
  ℕ, ◌≡◌, ◌↔◌, ◌≢◌, ◌⊎◌, true, false, none, some, List, [], ◌∷◌, ◌++◌, refl, length, get_elem?,
}
use uv_k5_v3_emulator.Common.Signed.{pos}
use uv_k5_v3_emulator.Common.Text.{Text}
use uv_k5_v3_emulator.Common.Result.{ok}
use uv_k5_v3_emulator.Image.{Files, ImageInfo, vector_info, application}
use uv_k5_v3_emulator.Image.Slot.{set, by_info}
use uv_k5_v3_emulator.Launch.{
  Launch, launch, resolve_image, by_slot, has_colon, colon, qmp_argument, tcp, unix, is_digits,
  is_tcp, argv_of, Probe, wait_for_socket, FlashSlot, flash_image, key_variables, BootKey,
}
use uv_k5_v3_emulator.Launch.Endpoint.{qmp_argument-tcp_iff}
use uv_k5_v3_emulator.Launch.Spawn.{Shows, launch-set, launch-unlinks, wait_for_socket-true_iff}

-- "a", "1", "/q"
abbrev host : Text
host = 0x61 ∷ []

abbrev port : Text
port = 0x31 ∷ []

abbrev socket : Text
socket = 0x2f ∷ 0x71 ∷ []

qmp_argument-tcp_iff_example :
    (qmp_argument (host ++ colon ∷ port) ≡ tcp host port)
    ↔ ((host ++ colon ∷ port ≡ host ++ colon ∷ port) × (length host ≢ 0) × (is_digits port ≡ true))
qmp_argument-tcp_iff_example = qmp_argument-tcp_iff (host ++ colon ∷ port) host port

abbrev probes : List Probe
probes = record { exists = true; accepts = false } ∷ record { exists = true; accepts = true } ∷ []

wait_for_socket-true_iff_example : (wait_for_socket socket probes ≡ true) ↔ (
    (i : ℕ) × (p : Probe) × (get_elem? probes i ≡ some p)
    × (p.accepts ≡ true)
    × ((is_tcp (qmp_argument socket) ≡ true) ⊎ (p.exists ≡ true)))
wait_for_socket-true_iff_example = wait_for_socket-true_iff socket probes

abbrev info : ImageInfo
info = vector_info host application 0x2800 100 0x20004000 0x08003000

abbrev flash : FlashSlot
flash = record { path = [] }

abbrev key : BootKey
key = record { name = some host; hold_ms = pos 1500 }

abbrev files : Files
files path = none

launch-set_example :
    Shows host flash
      (some key)
      socket
      1234
      none
      true
      (record { current = none })
      (set files (by_info info) (record { current = none }))
launch-set_example =
    launch-set host flash (some key) socket 1234 none true files (by_info info)
      (record { current = none })

launched :
    (l : Launch) × (launch host flash
        (by_slot (record { current = some info }))
        (some key)
        socket
        1234
        none
        true
      ≡ ok l)
    × (l.unlinks ≡ true)
unfolding launch resolve_image has_colon
launched = (
  record {
    unlinks = true;
    argv = argv_of host host socket 1234 none;
    env = flash_image [] ∷ key_variables (some key);
  },
  refl,
  refl,
)

launch-unlinks_example : (qmp_argument socket ≡ unix socket) × (true ≡ true)
launch-unlinks_example =
    launch-unlinks host flash (some key) socket 1234 none true
      (by_slot (record { current = some info })) launched.0 launched.1 launched.2
