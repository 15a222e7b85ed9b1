-- ===== src/Lib.antt =====
-- The Ledger EOS app: how it reads, shows and signs a transaction that a host asks the device to sign.
--
-- The app receives a serialized EOS transaction in pieces (src/eos.c), parses it one action at a time
-- for display (src/eos_parser.c, with the integers of src/eos_varint.c), shows the fields of each action
-- (src/eos_format_nanos.c, src/eos_ux_nanos.c), and signs its hash once the user agrees.
--
-- Files, and the code that they model:
--  Prelude   shared names, Boolean tests, lists measured by native numbers, and bit masks
--  Memory    byte arrays read through pointers: memcpy, little-endian integers (no file of the app)
--  Outcome   code with a state that may leave by THROW: the state at the throw is kept
--  Varint    src/eos_varint.c, and parse_varint32 of src/eos_utils.c
--  Types     the structures of src/eos_types.h
--  Parser    src/eos_parser.c; Actions has the functions of single actions, Wire describes the format
--            apart from the parser, ReadBack, Op, Head, Tx, Behind, Frame, Errors, Yields and Typed hold
--            the proofs
--  Text      the functions of src/eos_utils.c for names, numbers and hashes on a screen; Buffer has char
--            buffers, Address the keys in base 32, Coins print_amount; Digits, Fraction, Append,
--            Base32, Name, Account and Summary hold the proofs
--  Base58    src/eos_base58.c; Conversion has the proof of its loops, Room that of the size of its buffer,
--            Encoded that of its text
--  Keys      src/eos_helpers.c; Canonical has the proofs on signatures
--  Format    src/eos_format_nanos.c: State has its globals, Values its texts, Actions and the module
--            itself one function per screen; Screens, Transfers, Stakes and Order hold the proofs on
--            the end of the screens, Walk and Table with its children those on the texts of a whole
--            action, Asset and Amount those on the text of an asset, Chosen the one on an operation's tag
--  Blue      the screens of the Blue: State has its globals and src/eos_format_blue.c, the module itself
--            prepare_details and the start of an approval (src/eos_ux_blue.c), Elements the callbacks that
--            run before an element is drawn; Loop, Lines, Details and Hash hold the proofs
--  Device    what the SDK provides, as the parameters of the model
--  Context   eos_context_t of src/eos_types.h with its union, the APDU buffer and the screens' globals
--  Approval  the screens of an approval and of an address (src/eos_ux_nanos.c), with the answer to the
--            host of src/eos_ux_common.c; Frame and Refused hold the proofs on a screen and on an error of
--            the parser
--  Requests  the requests of src/eos.c; Path has their first piece, Upload and Protocol follow the
--            pieces of a transaction, Sizes and Union the arrays of the context
--  Signing   set_result_sign_tx of src/eos.c; Loop has the proofs
--  Apdu      handle_apdu and the loop of eos_main (src/main.c), with its status words
--  Events    the touch handlers (src/eos_ux_common.c), buttons, the setting and the callbacks of screens
--            (src/eos_ux_nanos.c), and the ticker of io_event (src/main.c); Loop has io_event itself
--            and io_exchange_al, Timer the proofs on the timer, Buttons those on what a button sends
--  System    these together: Approved and Shown follow an upload to what is signed and what the screens
--            read, Reset has the events that end a session
--  Runs      tests, with the transactions of test/tx_transfer.hex and test/tx_delegatebw.hex (in Stake),
--            and the theorems at concrete inputs
--
-- Correspondence. A C pointer into the raw transaction is an index into a list of bytes. A read past
-- the list, and a shift by 64 bits or more, are undefined in C, and are `none` or `undefined` here.
-- Integers are native numbers below 2 ^ w, with each wrap-around written as `% 2 ^ w`; signed integers
-- are kept as bit patterns. THROW(sw) is the outcome `thrown sw` with the state of that moment, as the
-- longjmp of the device's exceptions keeps it. The union `op` of operation_details_t is a data type with
-- a constructor for each member; what a member's bytes mean when another one is read is not modelled,
-- as the code reads only the member that it wrote. Loops are recursions on the bytes or on a count. The
-- loop of varint_encode has ten rounds of fuel, enough for every 64-bit number since each round takes
-- seven bits.
--
-- A char buffer is a list of bytes with the contents that it has. What C leaves open in a local array
-- is an argument: the bytes that it holds before it is written, and the bytes beside it (Frame). The
-- pointer `formatter` is a name from a data type with a constructor for each formatter, and the screens'
-- functions act on a record of the globals of src/eos_format_nanos.c. The fuel of name_bytes is the eight
-- bytes of a uint64_t, that of digits_loop the twenty-one chars of the buffer. The loop of print_amount has one
-- round more than its buffer has places, each of which a round fills. The loop of prepare_details takes any
-- number of rounds and returns whether it has ended, as it need not end; the walk along an action's
-- screens is proved with as many rounds as there are screens.
--
-- Requests act on a record of the context, the APDU buffer, the display, the variables `flags` and `tx`
-- of eos_main and the replies sent so far. Of the union `req` the member `tx` is kept with the padding
-- behind bip32Len; the address of GET_PUBLIC_KEY is a view of its first bytes. What the SDK provides is a
-- record of functions, `Device`: the hashes, the derivation of keys, and the n-th of the signatures that
-- cx_ecdsa_sign makes with random numbers. The loop that asks for signatures until one is canonical has
-- `rounds` of fuel, and any number of rounds above the first canonical signature is enough. A signature
-- is DER of two numbers of more than one byte each; the proofs on what is returned ask for 32 bytes in
-- each number of the canonical one, as the code returns something else for a shorter number. The wire
-- format has authorities with one key, as the code misreads others, and a bool of one byte, of which the
-- code reads four.
-- The local copies of keys are wiped before a function returns; nothing reads them afterwards, and the
-- wiping is left out. The loop of eos_main is cut where io_exchange waits for a command: buttons, the
-- menu and the clock act there. What io_event hands to the display library is a record of commands,
-- `Events`, and so are the channels of io_exchange_al and the flags of the Blue's elements.
--
-- Not modelled: the tables of screens and the drawing (src/eos_ux_nanos.c), the start of the hardware
-- in main and app_exit (src/main.c), the tables of the Blue's screens and its address screen
-- (src/eos_ux_blue.c), which does not compile, and the cryptography, which the device's SDK provides.
pub mod Prelude
pub mod Memory
pub mod Outcome
pub mod Varint
pub mod Types
pub mod Parser
pub mod Text
pub mod Base58
pub mod Keys
pub mod Format
pub mod Device
pub mod Context
pub mod Approval
pub mod Requests
pub mod Signing
pub mod Blue
pub mod Apdu
pub mod Events
pub mod System
pub mod Runs
