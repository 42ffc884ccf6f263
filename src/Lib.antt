-- ===== src/Lib.antt =====
-- A model of the ftx utility and of the SatCom library that it talks to. ftx moves files between a
-- PC and a Sega Saturn over a USB cartridge; SatCom, linked into the programs that run on the
-- Saturn, answers it and gives them files, a debugger and compression.
--
-- The parts, and the files that model them:
--   Checksum      satcom_lib/sc_common.c: crc_usbdc_update (the checksum of every transfer, which
--                 src/crc.cpp repeats on the PC) and crc32_update (that of a RomFs image), with
--                 their tables. Checksum/Spec.antt has the bitwise divisions they stand for.
--   Usbdc         satcom_lib/sc_saturn.c, the cartridge's side of the protocol: RecvByte and
--                 SendByte on a FIFO of bytes (Machine), DoDownload, DoUpload, DoExecute, DoExecExt,
--                 DoCopyExec and sc_check_usbdc, which takes commands while bytes come (Handlers).
--                 Transfer, Exec and Loop have what they do with what the PC sends.
--   Xfer          src/xfer.cpp, the PC's side: WriteAllToDevice over libftdi (Link), DoUpload,
--                 DoDownload, DoRun, DoExecute and DoBiosDump (Direct), with what DoDownload takes
--                 in (Receive) and leaves (Downloads). Session joins both sides:
--                 what Xfer sends is what Usbdc takes in, and the answer goes back. The protocol of
--                 remote commands: SendRemoteIoCommand, ReadRemoteIoReply and the commands of one
--                 reply (Remote), DoListStr (Listing), DoSdUpload and DoSdDownload (SdTransfer) with
--                 ParseSdUploadTarget (SdTarget), and DoSdSync (Sync) with the trees that it reads
--                 (Sync/Tree); Sync/Plan has what it asks of the two sides. Attempt is the chain of steps that may fail; Exchange has what a call
--                 moves on the wire, and Progress the drivers under which the loops end.
--   Ftdi          src/ftdi_gdb.cpp, the proxy of a debugger: write_all_ftdi and trace_rsp_stream
--                 (Proxy), with what the driver accepts (Relay), that it ends (Rounds) and the trace
--                 of a stream in pieces (Trace). What ftdi_tcioflush leaves of the bytes to be read
--                 is a parameter.
--   CircBuffer    satcom_lib/debugger/scd_circbuffer.inc.c: the ring that carries the debugger's
--                 messages to the PC.
--   Compress      satcom_lib/sc_compress.c: blocks compressed by LZF, or stored, behind a header.
--   RomFs         satcom_lib/sc_romfs.c: the read-only file system, whose compressed files are
--                 chunks of Compress.
--   Copystub      satcom_lib/copystub/copystub.c: the stub that DoExecExt and the loader use to move
--                 a program in place, clear the RAM around it and start it.
--   SdCard        satcom_lib/sdcard/: sdcard_packet.c, from the bits on the SPI bus (Spi) over the
--                 packets and the reading and writing of blocks (Packet) to sdc_init (Init) and
--                 sdc_slice (Slice); fat_io_lib/fat_global.c, which gives the FAT library its blocks
--                 (Media); and the file functions of sdcard_fat.c (Fat). Bits, Frame, Blocks and
--                 Writes have what goes over the bus with a card that answers by the protocol.
--   SatFile       satcom_lib/sc_saturn.c, the file layer: names and paths (Names), scf_size, scf_read
--                 and the functions that change files (Files), which use RomFs and SdCard, and the
--                 names, the sort (Listing) and the filter (Filter) of scf_filelist.
--   Base          the shared lists, byte words, Boolean tests and laws of the bit operations.
--
-- Machine words are natural numbers, with the wrap-around written out (u32, sub32, % 2 ^ w). Memory
-- is a function from addresses to bytes. Code that is not the repository's own is a parameter or a
-- script of answers: libftdi's calls answer from a list that the theorems quantify over, and so
-- does an SD card, bit by bit; the FAT library and the CD-ROM's are records of functions on a state
-- of their own, and LZF is two functions for which the theorems assume what liblzf documents.
--
-- Loops that the source does not bound are on fuel. sc_check_usbdc has a round for each byte to
-- come and one more, as a round takes at least one byte. The stub's copies have a turn for each
-- byte and one more. The walks of RomFs need one turn for each entry of a folder or chunk of a
-- file, which the theorems ask for; a chunk that decompresses to more than the 8 KiB of its buffer
-- is written past it in the source, and has no result here. DoSdDownload's loop has a turn for each byte announced, and
-- DoListStr's one for each answer of the driver and one more. GetSaturnTreeRecursive and
-- GetLocalTreeRecursive recur on a depth, and what is deeper is an outcome of its own.
-- write_all_ftdi has seven rounds for each byte and seven more. The polls of the SD card are
-- counted, as in the source. A loop that waits for a byte that never comes is an outcome of its
-- own.
--
-- Not modelled: of satcom_lib/sc_saturn.c the start-up, the debugger's output and its requests to
-- the PC (which SatFile takes as functions), and of scf_filelist the listing of each device; of
-- src/xfer.cpp the messages, the warning on names that are not 8.3 and the times; the command
-- line, device discovery, console and WebDAV server of src/ and the sockets of the debugger's
-- proxy, which are mostly input and output; and the copied libraries (the FAT library, liblzf,
-- Iapetus, SBL, Yaul's headers). The console's side of the remote commands is not in the
-- repository.
pub mod Base
pub mod Checksum
pub mod CircBuffer
pub mod Compress
pub mod Copystub
pub mod RomFs
pub mod SatFile
pub mod SdCard
pub mod Usbdc
pub mod Xfer
pub mod Ftdi
