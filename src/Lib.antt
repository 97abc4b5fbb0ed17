-- ===== src/Lib.antt =====
-- SakiOS: the boot manager and the libraries it links, in C. A model of the parts below and proofs
-- about it.
--
-- Parts, files and their source:
--   Base       shared names: tests, lists over the native numbers, results with faults, integers,
--              laws of `&` and `|`, include/util/alignment.h (`Base.Align`).
--   DataStruct libs/data-struct/hashmap.c. `Hashmap` is the table, `Iterator` the iterator; the
--              functions keep their names. The two function pointers are the interface `Key`, of which
--              `Name` is the instance for C strings.
--   Unicode    libs/unicode/convert.c (`Unicode.Convert`) and libs/unicode/hash.c (`Unicode.Hash`),
--              which makes UTF-16 strings keys of the hash map.
--   CString    libs/clib-independent/string.c over memory as a function from addresses to bytes.
--   Format     libs/lib-format/format.c: `Itoa` are the texts of numbers, `Vsprintf` the loop over a
--              format, `Renders` what a format stands for.
--   Video      libs/text-video/video.c: `Video` is the cursor with that memory.
--   Alloc      libs/mem-alloc/pageman.c: `PageMan` is the buddy allocator of pages, its free lists as
--              lists of addresses and its bitmaps as functions. `Cover` counts the free bytes, `Marks`
--              says what a bit stands for, `Create` is `pageman_create` with `pageman_freeBlock`.
--   Js         the lexer libs/js/lex.c with its record in include/js/js.h: `Lex.Default` is
--              `stateDefault`, one function for each group of its cases, `Lex.States` the other states
--              with `lex_new` and `lex_next`, `Lex.Keywords` the keyword table, which stands on the
--              hash map with UTF-16 keys, and `Token` and `TokenType` the tokens of
--              include/js/type.h. The record `Env` stands for the generated table of character
--              categories (libs/unicode/type.inc) and for the arithmetic of `double`.
--              libs/js/grammar.c: `Grammar` is the queue of tokens over a `Source`, of which `lexer` is
--              the lexer above; `Grammar.Expr` the functions of the expressions and `grammar_expr_stmt`,
--              `Grammar.Derives` the grammar they implement, and `Node` the trees of
--              include/js/type.h. libs/js/object.c with libs/js/desc.c: `Data` are the values of
--              include/js/type.h, `Descriptor` the tests of descriptors, and `Object` with
--              `Object.Define` the methods of an object, over a heap of objects.
--              libs/js/conversion.c is `Conversion`, with the texts of numbers in `Conversion.Text`
--              and the division of 32-bit machines in `Conversion.Division`, libs/js/ref.c is `Eval`,
--              and libs/js/internal.c its children: `Compare`, `Operators`, `Unary`, `Binary` and
--              `Nodes` with `js_eval_node`, which recurs on the tree. `Float` stands for the
--              arithmetic of `double`. `Global` is libs/js/global.c.
--   Atapi      bootmgr/vfs/atapi.c over the interface `Ports` of the port instructions of
--              include/asm/asm.h. `Atapi.Read` is `read`, `Atapi.Sector` what a drive must do for it.
--   Cdfs       bootmgr/vfs/cdfs.c over a parameter for `vfs_read` of the drive.
--   Vfs        bootmgr/vfs/vfs.c with bootmgr/vfs/ramfs.c: nodes in a heap, directories, paths and
--              mounts.
--   Boot       bootmgr/main.c up to the page manager: which memory of the map it gets.
--   Elf        bootmgr/elf32.c with include/elf/elf32.h: the table of symbols, their resolution, and the
--              relocations, over memory and a parameter for `malloc`. `CString.Words` are the words of
--              memory.
--   Tests      runs at concrete inputs.
--
-- How code is modelled: a function on mutable data takes the old state and returns the new one. A
-- failed `assert` halts the machine; it is the fault `assertion` of `Result`. A read outside an
-- object, or a division by zero, is the fault `invalid`. Loops over a list recur on it; other loops
-- take fuel, and the theorems that need it say how much is enough (the length of the string in
-- `Unicode.Convert`, where every round takes a unit; two rounds for each character, and two more, in
-- `lex_next`, where a round may change the state alone; 18 for each token, and 18 more, in
-- `grammar_expr`, where up to 17 calls go through the levels before one takes a token; three for the
-- calls of itself in `absEqComp`; 65 for each loop of `div64`; 32 digits in `itoa`; one round for each
-- character of a format, and one more, in `vsprintf`; one call for each whole sector, and three more,
-- in `read` of the drive). No theorem speaks of the fuel of the parser of directory records, which has
-- one round for each byte of a sector, and 256 for the entries behind a name, nor of that of the loops
-- over the sections of a program, whose number has 16 bits, and of the names in it. The recursion of the
-- page manager runs on the number of levels above the one asked for. `malloc` is taken to succeed, as
-- libs/c-stdlib asserts it does. Bytes, 16-bit units and 32-bit words are native numbers, and a store
-- or a cast that may lose bits has its `%` written out.
--
-- Not modelled: assembly (boot.asm, bootmgr/loader.asm, the instructions of include/asm/asm.h), the x87
-- code of libs/c-stdlib/math.c, the rest of bootmgr/main.c, which is a sequence of calls, and the parts
-- that no file above names: libs/mem-alloc/blockalloc.c among them.
mod Base
pub mod DataStruct
pub mod Unicode
pub mod CString
pub mod Format
pub mod Video
pub mod Js
pub mod Alloc
pub mod Atapi
pub mod Cdfs
pub mod Vfs
pub mod Elf
pub mod Boot
mod Tests
