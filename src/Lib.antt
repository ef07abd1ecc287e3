-- ===== src/Lib.antt =====
-- ftpii, an FTP server for the Wii. These modules model the C sources under source/, function by
-- function, and state what makes them correct.
--
-- The program's parts and the files that model them:
--
--   source/vrt.c     the paths that clients see. Path is the state machine of `virtual_abspath`, and
--                    Vrt the rest of the file: `to_real_path`, `with_virtual_path` and the `vrt_…`
--                    functions that the commands call.
--   source/net.c     Net: blocking mode, `transfer_exact` and `send_exact`, `send_from_file` and
--                    `recv_to_file`; Net.Start: `initialise_network` and `create_server`.
--   source/fs.c      Fs.Table is the table VIRTUAL_PARTITIONS, Fs has `mounted`, and Fs.Mount has
--                    `mount` and `unmount` and the forms of them that take an alias; Fs.Removable has the
--                    check of the removable devices, Fs.Remount the remounting by buttons, and Fs.Names
--                    `dirname` and `basename`.
--   source/dvd.c     Dvd and Dvd.Media.
--   source/dol.c     Dol, with memory as an argument that each copy hands on; source/loader.c is Loader.
--   source/ftp.c     Ftp.Split is `split`; Ftp.Reply has the replies; Ftp.Account, Ftp.Files, Ftp.Data
--                    and Ftp.Site have the command handlers, named as in the source but in lower case;
--                    Ftp.Numbers has the `sscanf` of PORT and REST; Ftp.Dispatch has the tables of
--                    commands and `process_command`; Ftp.Listing has `send_nlst` and `send_list`,
--                    Ftp.Cleanup lets go of clients, Ftp.Events has the data events, Ftp.Events.Accept
--                    and Ftp.Events.Control the other two kinds, and Ftp.Server `process_ftp_events`;
--                    Ftp.Sound is the invariant of the clients.
--   source/reset.c   Reset; source/pad.c is Pad.
--   source/ftpii.c   Main: the start, the buttons, the timers, the main loop and the end; Video sets up
--                    the screen.
--   source/preloader.c   Preloader.
--
-- The commands of ftp.c call vrt.c for files, net.c for replies and data, and fs.c, dvd.c and loader.c
-- for the SITE commands; vrt.c asks the table of fs.c which device a path is on.
--
-- State. World has a record for the static variables of each source file; the clients stand in a
-- heap under their addresses, and a pointer to one is its address. Of directory iterators, those of
-- the program's own are kept with their cursors; one of the library is a number, as a file is, and
-- what becomes of it is in the history of calls. A function of the source that reads or changes
-- state is an action `World → Out A`, which ends with a value and a state, at a dead pointer
-- (`fault`), not within the fuel of its loop (`stuck`), or by leaving the program (`exited`).
-- Strings are lists of bytes without their terminator. An `s32` result is `val n` or `err e`, where
-- `err e` stands for -e.
--
-- What is not in the repository (libogc, newlib, the disc and memory-card drivers) is a parameter: Os
-- holds a function from the history of calls and a call to its answer, with a few documented facts on
-- how many bytes a call stores or takes. The state keeps the history, so a theorem can say which calls
-- were made. A theorem for every Os holds for every environment. The callbacks of the reset and power
-- buttons run in interrupts; they only set flags, which the answers to a call at each poll tell.
--
-- Loops. Those over a string or a table are structural. The loop of `transfer_exact` runs on fuel, two
-- rounds more than the buffer has bytes: a round sends a byte or more, fails, or is the one retry with
-- a smaller buffer. The loops over a socket's data, a directory's entries and new clients, and those that
-- wait for a drive, the network or a button, have no bound in the source; their fuel is an argument,
-- which the main loop hands down, and what is said of them is said of the runs that come back. Where the
-- results say that `recv_to_file` or `mount` comes back, it is from a stream that ends, or a clock that
-- ticks, and with fuel for it. The loop over the lines of a client has one round more than its buffer has
-- bytes, which is enough.
--
-- Helpers. Base has the shared names, lists and strings; World.Triple says that an action ends, and in
-- which state; World.Frame says what it leaves alone and which calls it makes; World.Keeps is for what
-- holds of an action however it ends, and World.Apart for actions that leave the statics of the server
-- and of the remounting alone; Tests has an environment and a state to run the functions on.
--
-- Not modelled: the image that the build packs into source/preloader.c is an argument there, and the
-- layout of libogc's `struct __argv` a parameter; messages that are only printed to the screen, and
-- `free` on memory that holds no client or directory iterator, are left out.
pub mod Base
pub mod Os
pub mod Pad
pub mod Reset
pub mod Video
pub mod World
pub mod Net
pub mod Path
pub mod Fs
pub mod Dvd
pub mod Dol
pub mod Loader
pub mod Vrt
pub mod Ftp
pub mod Main
pub mod Preloader
pub mod Tests
