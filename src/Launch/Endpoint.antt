-- ===== src/Launch/Endpoint.antt =====
-- Endpoints: which are TCP, and what a wait for one shows.
use uv_k5_v3_emulator.Common.{
  ◌≡◌, ◌≢◌, ◌↔◌, inl, inr, refl, arith, true, false, none, some, [], ◌∷◌, ◌++◌, ◌==◌, ◌&&◌,
  if◌then◌else◌, length, not, Option-cases,
}
use uv_k5_v3_emulator.Common.Text.{Text}
use uv_k5_v3_emulator.Launch.{
  colon, rpartition, is_digits, all_digits, QmpArgument, tcp, parts_argument, qmp_argument,
  has_colon,
}

pub rpartition-has_colon : (cs : Text) → has_colon cs ≡ false → rpartition cs ≡ none
unfolding rpartition has_colon
rpartition-has_colon [] h = refl
rpartition-has_colon (c ∷ cs) h = ground (arith, rpartition-has_colon cs)

pub rpartition-append :
    (host port : Text)
    → has_colon port ≡ false
    → rpartition (host ++ colon ∷ port) ≡ some (host, port)
unfolding rpartition
rpartition-append [] port h = rw (rpartition-has_colon port h) refl
rpartition-append (c ∷ host) port h = rw (rpartition-append host port h) refl

pub all_digits-has_colon : (port : Text) → all_digits port ≡ true → has_colon port ≡ false
unfolding all_digits has_colon
all_digits-has_colon [] h = refl
all_digits-has_colon (c ∷ port) h = ground (arith, all_digits-has_colon port)

-- The parts give the endpoint back.
rpartition-join :
    (endpoint host port : Text)
    → rpartition endpoint ≡ some (host, port)
    → endpoint ≡ host ++ colon ∷ port
unfolding rpartition
rpartition-join [] host port h = absurd (ground arith)
rpartition-join (c ∷ cs) host port h = elim (Option-cases (rpartition cs)) [
  | inl e ↦ ground (arith, e, h)
  | inr ((h', p), e) ↦
      let at = rpartition-join cs h' p e in
      let same_host : c ∷ h' ≡ host = ground (arith, e, h) in
      let same_port : p ≡ port = ground (arith, e, h) in rw (← same_host, ← same_port, ← at) refl
]

pub is_digits-all_digits : (port : Text) → is_digits port ≡ true → all_digits port ≡ true
unfolding is_digits
is_digits-all_digits port h = ground arith

parts_argument-tcp :
    (endpoint h p host port : Text)
    → parts_argument endpoint (some (h, p)) ≡ tcp host port
    → (h ≡ host) × (p ≡ port) × ((not (length h == 0) && is_digits p) ≡ true)
parts_argument-tcp endpoint h p host port e = ground (arith, e)

some_host : (h p : Text) → (not (length h == 0) && is_digits p) ≡ true → length h ≢ 0
some_host h p guard = ground arith

digits_of : (h p : Text) → (not (length h == 0) && is_digits p) ≡ true → is_digits p ≡ true
digits_of h p guard = ground arith

some_host_if :
    (h : Text) (x y : QmpArgument)
    → length h ≢ 0
    → (if not (length h == 0) && true then x else y) ≡ x
some_host_if h x y h' = ground arith

-- An endpoint becomes a TCP listener exactly if it is a host that is not empty, a colon and a port of
-- digits; the host may hold colons. All others are the path of a Unix socket.
pub qmp_argument-tcp_iff :
    (endpoint host port : Text)
    → (qmp_argument endpoint ≡ tcp host port)
      ↔ ((endpoint ≡ host ++ colon ∷ port) × (length host ≢ 0) × (is_digits port ≡ true))
unfolding qmp_argument
qmp_argument-tcp_iff endpoint host port = (
  λ h. elim (Option-cases (rpartition endpoint)) [
    | inl e ↦ absurd (ground (arith, e, h))
    | inr ((h', p), e) ↦
        let at = rpartition-join endpoint h' p e in
        let (same_host, same_port, guard) =
          parts_argument-tcp endpoint h' p host port (ground (arith, e, h)) in
        (
          rw (← same_host, ← same_port) at,
          rw (← same_host) (some_host h' p guard),
          rw (← same_port) (digits_of h' p guard),
        )
  ],
  λ q.
      let (at, some_host', digits) = q in
      let parts =
        rpartition-append host port
          (all_digits-has_colon port (is_digits-all_digits port digits)) in
      rw (at, parts, digits) (some_host_if host (tcp host port) _ some_host'),
)
