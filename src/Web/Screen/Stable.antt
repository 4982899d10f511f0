-- ===== src/Web/Screen/Stable.antt =====
-- The addresses are found once.
use uv_k5_v3_emulator.Common.{ℕ, ◌≡◌, refl, ap, Option, none, some, []}
use uv_k5_v3_emulator.Buffers.Discover.{Found}
use uv_k5_v3_emulator.Web.{Server, active_client}
use uv_k5_v3_emulator.Web.Screen.{
  ScreenEnv, ScreenReply, addresses, pointed, remember, ask_client, recalled, ensure_buffers,
}

-- A reply that keeps what it says.
abbrev pub Keeps : ScreenReply → Type 0
Keeps (none, server, effects) = Unit
Keeps (some info, server, effects) = server.buffers ≡ some info

pointed-Keeps :
    (found : Found) (server : Server) (o : Option (ℕ × ℕ)) → Keeps (pointed found server o)
pointed-Keeps found server none = refl
pointed-Keeps found server (some (frame, status)) = refl

remember-Keeps : (found : Found) (server : Server) → Keeps (remember found server)
unfolding remember
remember-Keeps found server = pointed-Keeps found server (addresses found.frame found.status)

ask_client-Keeps :
    (env : ScreenEnv) (server : Server) (client : Option ℕ) → Keeps (ask_client env server client)
ask_client-Keeps env server none = tt
ask_client-Keeps env server (some client) = remember-Keeps _ server

recalled-Keeps :
    (env : ScreenEnv) (server : Server) (o : Option Found)
    → server.buffers ≡ o
    → Keeps (recalled env server o)
recalled-Keeps env server none h = ask_client-Keeps env server (active_client server)
recalled-Keeps env server (some found) h = h

Keeps-info : (r : ScreenReply) (info : Found) → Keeps r → r.0 ≡ some info → r.1.buffers ≡ some info
Keeps-info (none, server, effects) info h e = cc
Keeps-info (some found, server, effects) info h e = cc

-- An answer of `ensure_buffers`, found or failed, told or discovered, is its answer for ever: as long
-- as its memory is kept, it gives the same answer on any server, whatever image has been uploaded and
-- whatever emulator runs there by then, and changes nothing there.
pub ensure_buffers-Stable :
    (env later : ScreenEnv) (told : Option (ℕ × ℕ)) (server after : Server) (info : Found)
    → let (answer, kept, effects) = ensure_buffers env told server in
      answer ≡ some info
      → after.buffers ≡ kept.buffers
      → ensure_buffers later told after ≡ (some info, after, [])
unfolding ensure_buffers
ensure_buffers-Stable env later (some (frame, status)) server after info h k =
    ap (λ a. (a, after, [])) h
ensure_buffers-Stable env later none server after info h k =
    let kept : after.buffers ≡ some info = rw k (
      Keeps-info (recalled env server server.buffers) info
        (recalled-Keeps env server server.buffers refl) h) in
    ap (λ o. recalled later after o) kept
