-- ===== src/Lib.antt =====
-- The host tools of the UV-K5 V3 emulator (tools/*.py): what they write into flash images and
-- firmware files, the serial link's frames, and the web server that owns the emulator.
--
-- The parts and the files that model them, with paths from the repository's root:
--
-- - Common: the shared types and lemmas. Byte strings are lists of native numbers (Common.Words),
--   slices and slice assignments of Python are `slice` and `splice` (Common.Slices), regions of an
--   image that two images share are `SameOn` (Common.Regions), texts are lists of code points
--   (Common.Text, with the methods of `str` in Common.Chars), numbers that may be negative are the
--   integers of Common.Signed, and code that raises returns a `Result` (Common.Result). Common.Crc32
--   is `zlib.crc32`.
-- - Serial: tools/uvk5_serial_flash.py. Serial.Frame is `obfuscate`, `crc16_xmodem` and `build`;
--   Serial.Reassembly is the class `Frames`, with `feed` and `take`; Serial.Flasher is
--   `Flasher.program`, over the messages that `Frames` returns after each attempt on a page, and
--   Serial.Handshake `wait_for_device` and `handshake`.
-- - SlotRadio: tools/uvk5_slots_serial.py, the slot commands over the serial link: the class `Radio`
--   with its retries and `install`. A radio is a function of the frames that were sent so far;
--   SlotRadio.Carries says what the frames of an install are, SlotRadio.Sent and SlotRadio.Size are
--   about the frames of every run, SlotRadio.Answered about the runs with a device that answers.
-- - Slots: tools/uvk5_slots.py, the five firmware slots of the external flash. Slots holds the
--   layout, `write_slot`, `erase_slot`, `read_slot` and `erase_state`; Slots.Build is `build`, and
--   Slots.Files the functions that edit an image file and give the slot table.
-- - Apps: tools/uvk5_apps.py, the overlay apps. Apps.Header is `parse` and `build` of a .app, and
--   Apps.Image the sixteen app slots, with `install`, `erase` and the table; Apps.Radio is
--   `parse_radio_reply`, what the firmware answers about a slot.
-- - Image: tools/uvk5_image.py. `detect` tells an ELF file, an application and a full-flash image
--   apart; Image.Slot is the class `ImageSlot`, from which the launcher takes its image.
-- - Supervisor: the class `Supervisor` of tools/uvk5_supervisor.py. A call takes what the process,
--   the launcher and the QMP client answer, and gives the outcome, the new state and the list of what
--   it did to them. Supervisor.Trace has the runs of such calls, and Supervisor.Account says which
--   processes run after an action.
-- - Launch: the functions around it in the same file: `qmp_argument`, `resolve_image`,
--   `default_launcher` and `wait_for_socket`.
-- - Logs: tools/uvk5_logs.py, the bounded buffer into which the supervisor's notes and QEMU's stderr
--   go and which the page polls.
-- - Lcd: tools/uvk5_lcd.py, the bytes of the display as pixels and as a PNG; the proofs on the three
--   loops of `unpack` are in Lcd.Bits, Lcd.Pages and Lcd.Unpack, those on the panel in Lcd.Panel.
-- - Stream: tools/uvk5_stream.py, the frame pump. Stream.Steps has the rounds of its thread, and the
--   calls of the server in any order between them.
-- - Buffers: tools/uvk5_buffers.py, where a firmware keeps its screen: `score` and `locate` are the
--   search in SRAM, Buffers.Symbols is `from_symbols` and Buffers.Discover is `discover`.
-- - Keys: tools/uvk5_keys.py and tools/key.py, the names of the keys and the presses of the command.
-- - Banner: tools/uvk5_banner.py, the version that the boot log of the firmware shows.
-- - Socket: `connect` of tools/uvk5_socket.py, and in Socket.Agree how it fits `qmp_argument`.
-- - Qmp: the class `QmpClient` of tools/uvk5_qmp.py; Qmp.Stream compares its loop with a reader of the
--   whole stream.
-- - Web: the handlers of tools/webui.py that change state. Web has the state of the server, which
--   is the supervisor, the frame pump, the image slot, the flash slot, the boot key and the
--   addresses of the screen, and the effects on the emulator and the log. Web.Key is `api_key`,
--   `api_ptt` and `api_release_all`, Web.Power `api_power`, Web.Edit `_edit_flash`, Web.Flash the
--   handlers of the slots, the overlay apps and the upload of a flash image, and Web.Firmware the
--   upload of a firmware; Web.Screen is `ensure_buffers` and Web.Radio `api_apps_radio`.
-- - Bin2Elf: `build_elf` of tools/bin2elf.py, and in Bin2Elf.Load a loader that reads its files.
-- - Elf2Bin: tools/elf2bin.py, the flat image of an overlay app's ELF file; Elf2Bin.Read has the sizes of
--   its sections, Elf2Bin.Placed the loop that places them and Elf2Bin.Loaded the image as a whole.
-- - MakeFlash: tools/make_flash.py, with the UF2 files that are placed by their own addresses.
--
-- State. An image that the source edits in place is passed in and returned. A lock is not modelled: a
-- call under it is one step, and what happens outside of it is a step of its own (the three steps of
-- a round of the frame pump). What the operating system, QEMU and the standard library answer is an
-- argument: the environments of `power_on`, `power_off` and of a grab, those of a request (`EditEnv`,
-- `PowerEnv`, `UploadEnv`), the files of the host, `os.path.abspath`, `int` of a text, `json.loads`, the
-- decoder of UTF-8 and `zlib.compress`. A loop that waits for a deadline takes the list of its rounds.
-- A socket is the list of the chunks that `recv` returns.
--
-- Numbers are natural numbers; a field of w bits is taken modulo 2 ^ w where `struct` packs it, and
-- a value that `struct` refuses is an error. The differences in the sources that may be negative are
-- padding and ranges, which are empty there as they are here.
--
-- Fuel. `take` of `Frames` is given one more than the length of its buffer, and each round that goes
-- on leaves a shorter buffer; the loop over complete messages is given the same. The loop of `command`
-- of the QMP client is given one more than the bytes of its stream, and each round that goes on takes a
-- line from it. All other loops are by recursion on a list or on the number of rounds.
--
-- Not modelled: the C model of the machine (qemu/) and the firmware; of tools/webui.py the page, the
-- routes, the event stream and the handlers that only read; what opens a listening socket;
-- the checks of the docs and the tools that only draw or print; the tests; and the command lines, but
-- for the one of tools/key.py. A request is one step: two requests at once are not
-- interleaved. Of texts, `isdigit` knows the digits below 128, and the headers of a .app are stripped
-- of the spaces below 128.
pub mod Common
pub mod Serial
pub mod Slots
pub mod Apps
pub mod Image
pub mod Supervisor
pub mod Launch
pub mod Logs
pub mod Lcd
pub mod Stream
pub mod Bin2Elf
pub mod Elf2Bin
pub mod Banner
pub mod Keys
pub mod Qmp
pub mod Socket
pub mod SlotRadio
pub mod Web
pub mod MakeFlash
pub mod Buffers
