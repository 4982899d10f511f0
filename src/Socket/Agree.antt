-- ===== src/Socket/Agree.antt =====
-- Where the monitor listens and where its client dials, for the same endpoint.
use uv_k5_v3_emulator.Common.{
  ℕ, zero, suc, ◌≡◌, ◌≢◌, ◌∙◌, refl, arith, Bool, true, false, Option, none, some, List, [], ◌∷◌,
  ◌++◌, ◌||◌, ◌==◌, length, replicate,
}
use uv_k5_v3_emulator.Common.Words.{bytes_eq}
use uv_k5_v3_emulator.Common.Text.{Text}
use uv_k5_v3_emulator.Common.Chars.{chars}
use uv_k5_v3_emulator.Common.Signed.{ℤ}
use uv_k5_v3_emulator.Launch.{
  colon, rpartition, has_colon, all_digits, is_digits, qmp_argument, tcp, unix,
}
use uv_k5_v3_emulator.Launch.Endpoint.{
  rpartition-has_colon, rpartition-append, all_digits-has_colon, is_digits-all_digits,
}
use uv_k5_v3_emulator.Socket.{
  comma, partition, at_port, tcp_address, address_of, Answer, opened, os_error, dialled,
  connected_port, no_number, connect,
}

-- Whether a text holds a character.
unfoldable pub has : ℕ → Text → Bool
has c [] = false
has c (d ∷ ds) = d == c || has c ds

has-append : (c : ℕ) (xs ys : Text) → has c (xs ++ ys) ≡ has c xs || has c ys
unfolding has
has-append c [] ys = refl
has-append c (x ∷ xs) ys = ground (arith, has-append c xs ys)

has_colon-has : (cs : Text) → has_colon cs ≡ has colon cs
unfolding has_colon has
has_colon-has [] = refl
has_colon-has (c ∷ cs) = rw (has_colon-has cs) refl

partition-has : (c : ℕ) (cs : Text) → has c cs ≡ false → partition c cs ≡ (cs, [])
unfolding partition has
partition-has c [] h = refl
partition-has c (d ∷ ds) h = ground (arith, partition-has c ds)

partition-append : (c : ℕ) (cs ds : Text) → has c cs ≡ false → partition c (cs ++ c ∷ ds) ≡ (cs, ds)
unfolding partition has
partition-append c [] ds h = ground arith
partition-append c (d ∷ cs) ds h = ground (arith, partition-append c cs ds)

-- What stands before the separator holds no character that the text does not hold.
has-partition : (c d : ℕ) (cs : Text) → has d cs ≡ false → has d (partition c cs).0 ≡ false
unfolding partition has
has-partition c d [] h = refl
has-partition c d (e ∷ es) h = ground (arith, has-partition c d es)

all_digits-comma : (port : Text) → all_digits port ≡ true → has comma port ≡ false
unfolding all_digits has
all_digits-comma [] h = refl
all_digits-comma (c ∷ port) h = ground (arith, all_digits-comma port)

-- A name of a host: not empty, with no colon and no comma, and not one of the two schemes.
pub record IsHost (host : Text) : Type 0 where
  pub some_name : length host ≢ 0
  pub no_colon : has colon host ≡ false
  pub no_comma : has comma host ≡ false
  pub no_unix : bytes_eq host (chars "unix") ≡ false
  pub no_tcp : bytes_eq host (chars "tcp") ≡ false

place_comma :
    (host port : Text)
    → IsHost host
    → is_digits port ≡ true
    → has comma (host ++ colon ∷ port) ≡ false
unfolding has
place_comma host port h digits =
    has-append comma host (colon ∷ port)
    ∙ rw (h.no_comma, all_digits-comma port (is_digits-all_digits port digits)) refl

rpartition-place :
    (host port : Text)
    → is_digits port ≡ true
    → rpartition (host ++ colon ∷ port) ≡ some (host, port)
rpartition-place host port digits =
    rpartition-append host port (all_digits-has_colon port (is_digits-all_digits port digits))

tcp_address-host :
    (host port : Text)
    → IsHost host
    → is_digits port ≡ true
    → tcp_address (host ++ colon ∷ port) ≡ at_port host port
unfolding tcp_address
tcp_address-host host port h digits =
    rw
      (
        partition-has comma (host ++ colon ∷ port) (place_comma host port h digits),
        rpartition-place host port digits,
      )
      refl

address_of-host :
    (host port : Text)
    → IsHost host
    → is_digits port ≡ true
    → address_of (host ++ colon ∷ port) ≡ at_port host port
unfolding address_of
address_of-host host port h digits =
    rw (partition-append colon host port h.no_colon, h.no_unix, h.no_tcp)
      (tcp_address-host host port h digits)

listens :
    (host port : Text)
    → IsHost host
    → is_digits port ≡ true
    → qmp_argument (host ++ colon ∷ port) ≡ tcp host port
unfolding qmp_argument
listens host port h digits =
    rw (rpartition-place host port digits, digits) (ground (arith, h.some_name))

dialled-opened :
    (int : Text → Option ℤ) (host port : Text) (n : ℤ) (misses : ℕ) (more : List Answer)
    → int port ≡ some n
    → dialled int (at_port host port) (replicate misses os_error ++ opened ∷ more)
      ≡ connected_port host n
unfolding dialled replicate
dialled-opened int host port n zero more h = rw h refl
dialled-opened int host port n (suc misses) more h =
    rw h (dialled-opened int host port n misses more h)

-- For an endpoint that is a host's name, a colon and a port of digits, QEMU is told to listen on that
-- host and port, and `connect` reaches the same host and the port's number, after any number of
-- attempts that the system refuses before the deadline.
pub connect-qmp_argument :
    (int : Text → Option ℤ) (host port : Text) (n : ℤ) (misses : ℕ) (more : List Answer)
    → IsHost host
    → is_digits port ≡ true
    → int port ≡ some n
    → (qmp_argument (host ++ colon ∷ port) ≡ tcp host port)
      × (connect int (host ++ colon ∷ port) (replicate misses os_error ++ opened ∷ more)
          ≡ connected_port host n)
unfolding connect
connect-qmp_argument int host port n misses more h digits number = (
  listens host port h digits,
  rw (address_of-host host port h digits) (dialled-opened int host port n misses more number),
)

-- "/"
abbrev pub slash : ℕ
slash = 0x2f

qmp_argument-unix : (path : Text) → has colon path ≡ false → qmp_argument path ≡ unix path
unfolding qmp_argument
qmp_argument-unix path h = rw (rpartition-has_colon path (has_colon-has path ∙ h)) refl

tcp_address-bare :
    (path : Text) → has colon path ≡ false → tcp_address path ≡ at_port [] (partition comma path).0
unfolding tcp_address
tcp_address-bare path h =
    rw
      (rpartition-has_colon (partition comma path).0
        (has_colon-has (partition comma path).0 ∙ has-partition comma colon path h))
      refl

no_scheme :
    (name : Text)
    → (bytes_eq (slash ∷ name) (chars "unix") ≡ false)
      × (bytes_eq (slash ∷ name) (chars "tcp") ≡ false)
unfolding bytes_eq
no_scheme name = (refl, refl)

address_of-bare :
    (name : Text)
    → has colon (slash ∷ name) ≡ false
    → address_of (slash ∷ name) ≡ at_port [] (partition comma (slash ∷ name)).0
unfolding address_of
address_of-bare name h =
    rw (partition-has colon (slash ∷ name) h, (no_scheme name).0, (no_scheme name).1)
      (tcp_address-bare (slash ∷ name) h)

partition-slash :
    (name : Text) → (partition comma (slash ∷ name)).0 ≡ slash ∷ (partition comma name).0
unfolding partition
partition-slash name = refl

-- For the absolute path of a Unix socket, with no colon in it, QEMU is told to listen on that path. But
-- `connect` takes the path for a port, and ends with the ValueError of its number in the first round,
-- whatever the system would answer.
pub connect-bare_path :
    (int : Text → Option ℤ) (name : Text) (answer : Answer) (answers : List Answer)
    → ((t : Text) → int (slash ∷ t) ≡ none)
    → has colon (slash ∷ name) ≡ false
    → (qmp_argument (slash ∷ name) ≡ unix (slash ∷ name))
      × (connect int (slash ∷ name) (answer ∷ answers) ≡ no_number)
unfolding connect dialled
connect-bare_path int name answer answers h bare = (
  qmp_argument-unix (slash ∷ name) bare,
  rw (address_of-bare name bare, partition-slash name, h (partition comma name).0) refl,
)
