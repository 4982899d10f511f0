-- ===== src/Buffers/Discover.antt =====
-- `discover` of tools/uvk5_buffers.py: the symbols of the image first, then the search in SRAM.
pub mod Wrapped
use uv_k5_v3_emulator.Common.{
  ℕ, ◌*◌, Bool, true, false, Option, none, some, List, [], ◌∷◌, leb, if◌then◌else◌,
}
use uv_k5_v3_emulator.Common.Words.{Bytes}
use uv_k5_v3_emulator.Common.Text.{Text}
use uv_k5_v3_emulator.Common.Result.{Result, ok, err}
use uv_k5_v3_emulator.Image.{Files}
use uv_k5_v3_emulator.Buffers.{Place, locate}
use uv_k5_v3_emulator.Buffers.Symbols.{TableError, Addresses, from_symbols}

-- How the addresses were found; `failed` is the answer of the web server for an exception.
pub data How : Type 0 where
  elf_symbols : How
  no_emulator : How
  sram_search : How
  weak_match : How
  command_line : How
  failed : Text → How

pub record Found : Type 0 where
  pub frame : Option ℕ
  pub status : Option ℕ
  pub how : How
  pub score : Option ℕ
  pub total : Option ℕ

-- What a client answers to the two reads: the bytes, or the text of an exception.
pub record Reads : Type 0 where
  pub panel_gram : Result Text Bytes
  pub sram : Result Text Bytes

-- `best >= CONFIDENT * total`, where CONFIDENT is 0.90.
unfoldable pub how_sure : ℕ → ℕ → How
how_sure best total = if leb (90 * total) (100 * best) then sram_search else weak_match

abbrev pub place_found : Place → Found
place_found place = record {
  frame = place.frame;
  status = place.status;
  how = how_sure place.best place.total;
  score = some place.best;
  total = some place.total;
}

abbrev pub searched : Result Text Bytes → Result Text Bytes → Result Text Found
searched (err e) sram = err e
searched (ok gram) (err e) = err e
searched (ok gram) (ok sram) = ok (place_found (locate sram gram))

-- `none` is no client; `gram` the argument, if it is given.
unfoldable pub search : Option Reads → Option Bytes → Result Text Found
search none gram =
    ok (record { frame = none; status = none; how = no_emulator; score = some 0; total = some 0 })
search (some reads) none = searched reads.panel_gram reads.sram
search (some reads) (some gram) = searched (ok gram) reads.sram

abbrev pub symbols_or :
    (TableError → Text) → Result TableError Addresses → Result Text Found → Result Text Found
symbols_or say (err e) found = err (say e)
symbols_or say (ok none) found = found
symbols_or say (ok (some (frame, status))) found = ok (record {
  frame = some frame;
  status = some status;
  how = elf_symbols;
  score = none;
  total = none;
})

-- `if image_path:`; `say` is the text of the exception.
unfoldable pub discover :
    Files → (TableError → Text) → Option Text → Option Reads → Option Bytes → Result Text Found
discover files say none reads gram = search reads gram
discover files say (some []) reads gram = search reads gram
discover files say (some (c ∷ cs)) reads gram =
    symbols_or say (from_symbols (files (c ∷ cs))) (search reads gram)
