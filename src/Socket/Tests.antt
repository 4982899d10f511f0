-- ===== src/Socket/Tests.antt =====
-- "a:1", and the default endpoint of the server.
use uv_k5_v3_emulator.Common.{
  ◌≡◌, refl, arith, Option, none, some, [], ◌∷◌, ◌++◌, ◌==◌, if◌then◌else◌, replicate, false, true,
}
use uv_k5_v3_emulator.Common.Words.{bytes_eq}
use uv_k5_v3_emulator.Common.Text.{Text}
use uv_k5_v3_emulator.Common.Chars.{chars}
use uv_k5_v3_emulator.Common.Signed.{ℤ, pos}
use uv_k5_v3_emulator.Launch.{colon, rpartition, all_digits, is_digits, qmp_argument, tcp, unix}
use uv_k5_v3_emulator.Socket.{
  address_of, at_path, at_port, partition, unix_address, tcp_address, opened, os_error,
  connected_port, no_number, connect,
}
use uv_k5_v3_emulator.Socket.Agree.{IsHost, has, slash, connect-qmp_argument, connect-bare_path}

-- Numbers of one digit.
abbrev int : Text → Option ℤ
int [] = none
int (c ∷ cs) = if c == 0x31 then some (pos 1) else none

a-IsHost : IsHost (chars "a")
unfolding has bytes_eq
a-IsHost = record {
  some_name = omega arith;
  no_colon = refl;
  no_comma = refl;
  no_unix = refl;
  no_tcp = refl;
}

one_digits : is_digits (chars "1") ≡ true
unfolding is_digits all_digits
one_digits = refl

connect-qmp_argument_example :
    (qmp_argument (chars "a" ++ colon ∷ chars "1") ≡ tcp (chars "a") (chars "1"))
    × (connect int (chars "a" ++ colon ∷ chars "1") (replicate 2 os_error ++ opened ∷ [])
        ≡ connected_port (chars "a") (pos 1))
connect-qmp_argument_example =
    connect-qmp_argument int (chars "a") (chars "1") (pos 1) 2 [] a-IsHost one_digits refl

bare : has colon (slash ∷ chars "tmp/uvk5-qmp.sock") ≡ false
unfolding has
bare = refl

connect-bare_path_example :
    (qmp_argument (slash ∷ chars "tmp/uvk5-qmp.sock") ≡ unix (slash ∷ chars "tmp/uvk5-qmp.sock"))
    × (connect int (slash ∷ chars "tmp/uvk5-qmp.sock") (opened ∷ []) ≡ no_number)
connect-bare_path_example =
    connect-bare_path int (chars "tmp/uvk5-qmp.sock") opened [] (λ t. refl) bare

schemes :
    (address_of (chars "unix:/q,server=on") ≡ at_path (chars "/q"))
    × (address_of (chars "tcp:a:1,wait=off") ≡ at_port (chars "a") (chars "1"))
    × (address_of (chars "a:1") ≡ at_port (chars "a") (chars "1"))
unfolding address_of unix_address tcp_address partition rpartition bytes_eq
schemes = (refl, refl, refl)
