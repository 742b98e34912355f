-- ===== src/Lib.antt =====
-- newtua-core: an engine that lists and extracts archives of many formats.
--
-- The program probes a file for its format, opens it with that format's handler, which gives a list
-- of entries and reads an entry's body on request, and extracts the entries below a destination. The
-- parts modelled here are the shared layers and the handlers of some formats:
--   PathSafety  src/path_safety.rs: `safe_join`, `raw_path_escapes`, `safe_symlink_target`. Paths are
--               byte strings; PathSafety/Paths models `Path::components` and `PathBuf::push` as the
--               standard library has them on Unix.
--   Datetime    src/datetime.rs: the conversions to `SystemTime`. `libc::mktime` is the parameter
--               `mktime`. The Windows branch is left out.
--   Encoding    src/encoding.rs: one encoding for all names of an archive. encoding_rs and chardetng
--               are the record `Codecs` of operations.
--   Archive     src/archive.rs: the types that handlers share.
--   Error       src/error.rs: the errors, and `Result`, whose `stuck` stands for fuel that ran out. A run
--               that may also panic has the outcomes of Error/Run.
--   Cpio        src/format/cpio.rs: Cpio/Fields has the constants, the numbers of the header fields and
--               the checksum, Cpio/Walk the walks over the records, Cpio/Listing the entry list,
--               opening and reading. The handler calls Encoding for names, Datetime for times.
--   Wpress      src/format/wpress.rs: Wpress/Fields has the header's fields and `join_raw`, Wpress/Walk
--               the walk, the entries and reading. The handler calls Encoding, Datetime, PathSafety.
--   Volume      src/volume.rs: Volume/Concat is `ConcatReader`; Volume/Fields, Volume/Directory and
--               Volume/Join are `join_split_zip` with its helpers, Volume/Members the search for the
--               files of an archive.
--   Detect      src/detect.rs: Detect/Compressors has the signatures and suffixes, Detect/Choice the loop
--               that picks a handler, Detect/Single `open_single`, Detect/Opening `open`, which calls
--               Volume. The handlers and the decoders are the record `Parts`.
--   Warc        src/format/warc.rs: Warc/Names has the names and `strip_http_headers`, Warc/Dates
--               `parse_warc_date`, Warc/Reading opening and reading. The records are those of the warc
--               crate.
--   Dmg         src/format/dmg.rs: Dmg/Fields has the trailer and the blocks, Dmg/Plist the property list,
--               Dmg/Adc the ADC decoder, Dmg/Image the raw image, Dmg/Volumes the search for a volume.
--   AppImage    src/format/appimage.rs: the offset behind the ELF image, and what is opened there.
--   Crx         src/format/crx.rs: the offset of the zip, and opening it.
--   Sfx         src/format/sfx.rs: the archive behind an executable. The parsers of executables are the
--               record `Parsers`.
--   Ar          src/format/ar.rs: the entries and the bodies of the members that the ar crate gives.
--   Bundle      src/format/bundle.rs: the extensions of the subtypes of zip, and their probe.
--   Deb, Rpm    src/format/deb.rs, src/format/rpm.rs: which payload of a package is opened, and with
--               which decoder. The members and the tags are what the ar and rpm crates give.
--   Decompress  src/decompress.rs: the header and the trailer of lzip members, and in Decompress/Read the
--               loop of `read`, on fuel that is an argument; the decoder is the record `Decoder`.
--   Xar         src/format/xar.rs: Xar has the guard on the nesting of XML, which Dmg calls, Xar/Nodes
--               the nodes of the table of contents and the names in it, Xar/Mtime `parse_mtime`, Xar/Toc
--               the walk over the nodes, Xar/Opening opening and reading. The XML parser, base64 and the
--               decoders are the record `Tools`.
--   Wim         src/format/wim.rs: Wim/Fields has the header and the lookup table, Wim/Chunks
--               `read_resource`, Wim/Dentry `parse_dirent` with the tagged items, Wim/Tree the walk over
--               the directories, Wim/Opening opening and reading. The decoders of newtua_mscompress are
--               the record `Codecs`.
--   Macos       src/macos.rs: `is_macos_metadata`.
--   Extract     src/extract.rs: the entries that `extract_all` takes, `common_root`, and the choice of
--               the destination; Extract/World has the operations on the file system and the events of
--               the callback as lists that a run makes longer, Extract/One `extract_one`, Extract/Run
--               `extract_all`, Extract/AppleDouble the sidecar of a resource fork. What the file system
--               refuses and what the callback answers are any functions of what came before; an archive
--               is the pieces that reading an entry writes.
--   Base        lists and numbers that the parts share, and the standard library's lossy UTF-8,
--               UTF-16 and `str`.
--
-- A function keeps the name that it has in the source; a loop is a function of its own, named after
-- the function that it is in. A file is the list of its bytes, numbers are ℕ, and what the source does
-- about overflow (`checked_add`, casts, wrapping sums) is written out. The walks of Cpio and Wpress
-- run on fuel, one round more than the file has bytes, which is enough since each record takes bytes
-- of the file; a read of ConcatReader runs on a round per volume and two more.
-- The ADC decoder, the sweep of Dmg and the guard of Xar run on a round more than there are bytes, of
-- which each round takes one or more; the search for volumes runs on 2^32 rounds, since its counter is
-- an u32, and a volume more is not modelled. The scan of tagged items in Wim has a round more than
-- there are bytes, the walk of Xar a round more than there are elements. Nothing in the source bounds
-- the walk of Wim, so its fuel is an argument, and so it is of opening. Other loops are structural.
--
-- Not modelled: failures of reading, apart from the end of a file; the texts that errors put together
-- from values; the other handlers and the list that `registry` builds; the decoders; the branches of
-- `extract_all` for macOS and Windows.
pub mod Base
pub mod Error
pub mod PathSafety
pub mod Datetime
pub mod Encoding
pub mod Archive
pub mod Cpio
pub mod Volume
pub mod Macos
pub mod Extract
pub mod Wpress
pub mod Detect
pub mod Warc
pub mod Dmg
pub mod AppImage
pub mod Crx
pub mod Decompress
pub mod Xar
pub mod Wim
pub mod Sfx
pub mod Deb
pub mod Rpm
pub mod Ar
pub mod Bundle
