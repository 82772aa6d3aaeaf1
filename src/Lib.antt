-- ===== src/Lib.antt =====
-- Verification of tuicord, a Discord client for the terminal, written in Go.
--
-- The program: internal/discord turns the gateway's events into changes of internal/store, which
-- keeps the channels' messages; internal/app decides what is loaded when and calls the service;
-- internal/ui draws the store with the widgets of internal/tui, whose layout solver places them,
-- whose focus manager owns the keyboard focus, and whose parser turns the terminal's bytes into
-- events; internal/media keeps the decoded images. Verified are the parts with a contract of their
-- own, each against its callers' view of it:
--
-- Files and what they model (paths from the repository's root):
--   Store/Rich, Store/Message: the message types of internal/store/message_types.go and store.go.
--   Store/Ring: internal/store/ring.go, the bounded history of a channel. A method that mutates a
--     *ring returns the new ring beside its result. Window relates the circular buffer to the
--     list that slice returns; Push, Patch, Remove and Reactions hold what each method does to it.
--   Store/Permissions: internal/store/permissions.go. A permission set is the function from the
--     number of a bit to the bit; the maps of the store are functions from keys to options.
--   Store/Ordering: OrderGuilds of internal/store/ordering.go, with its loops as functions on the rows
--     and the sets that they share. Tracks counts the rows of a guild along the loops.
--   Store/Sorting, Store/Threads: the insertion sorts of internal/store, with what is less as an
--     argument; the sorted part is given from its end, where the inner loop begins. sortThreads.
--   Store/Data, Store/State: the records of internal/store/store.go (guild, channel, member, role) and
--     the Store itself; a map is a list of entries with different keys (Base/Dict).
--   Store/Unread: unread counts and pings. Store/Guilds: guilds, folders, emojis and stickers.
--   Store/Channels: channels, their order and lifetimes, of store.go and channels.go; Channels/Threads
--     the operations on threads. Channels/Pings and PingSteps are about the guilds' pings, Index and
--     Lifetimes about the order of a guild's channels.
--   Store/Tombstones: the record of deleted messages, of store.go and mutation.go. Oldest is about the
--     loop that evicts, Bounds about one channel, Deletion about RemoveMessage on a store.
--   Store/History: the operations on messages of store.go and mutation.go; History/Page is
--     PrependMessagesSince with its loops, Window what it keeps, Paging what it installs.
--   Store/Members: members, roles and the colour of a name; Display is MemberDisplayRole.
--   Layout: internal/tui/layout. Types has the nodes of types.go; Distribute and Solve the functions
--     of solve.go, with the sizes as lists of slots beside the children. Distribute/Shrink,
--     Distribute/Grow, Solve/Rects and Solve/Inside hold the bounds, Distribute/Full when all space
--     is given out.
--   Gate: internal/app/resource_gate.go. Its maps are functions; Single is singleLoadGate; Flight is
--     a relation of the steps that loads, completions and invalidations may take in any order.
--   Media: internal/media/cache.go (the LRU of decoded images) and checkedMul of decode.go.
--     Cache/Entries and Cache/Evict relate the list of entries to the prefix that fits the limits,
--     Cache/Access and Cache/Reach hold what the calls do.
--   Focus: internal/tui/tui/focus.go. State has the manager and the parts that several operations
--     share, Operations the operations. Invariant and Reach hold the invariant, Walk what Next and
--     Prev do, Visited and Visits Back and Forward, Rebuild Replace, Removal Remove.
--   Input: internal/tui/input. Events is events.go, Protocol protocol.go, Sequences and Parser are
--     parser.go (the events of a control sequence, and all else); Text has what they use of the
--     packages strings, strconv and unicode/utf8. Parser/Progress is about the loop, Parser/Markers
--     about the search for the end of a paste, Parser/Paste about pastes that come in several reads.
--   Screen: internal/tui/screen. Cells has the cells of types.go and buffer.go with Set; Colors and Diff
--     are diff.go, whose writes are values that stand for their bytes. Terminal is a terminal that runs
--     them. Row, Repaint, Loops and Frame follow the writes of a cell, of a row and of a frame; Pairs,
--     Grid, Writes and SetCell follow what Set changes; Nearest is about the colours.
--   Text: internal/tui/text. A string is the list of its runes; its split into clusters, by the package
--     uniseg, is a parameter, so a string that Truncate or a padding puts together is split anew. Wrap
--     works on the clusters of a paragraph, and the place of a space is a number of clusters. Width is
--     about width.go, Fit about Truncate, Wrap and Content about the lines of Wrap.
--   Scrollbar: the arithmetic of internal/tui/widget/scrollbar.go.
--   Config: the colours of internal/config/color.go as text, and colorHex of theme.go.
--   Base: shared names, lists, signed integers, machine words (Base/Word) and tests.
--
-- Conventions: a Go int that is a length, an index or a count is a number of ℕ, an index that may
-- be -1 an option, and a time a number of nanoseconds. Sizes that the code clamps at 0 are numbers
-- of ℕ; paddings and positions are signed (ℤ). An integer that the code's inputs may make wrap
-- (the gates' versions, the cache's byte count, the layout's sums) is given by its 64 bits and
-- wraps; a theorem that needs it not to says so among its conditions. A callback is a function
-- argument. A loop over a slice or over a number of rounds is a recursion on the list or on that
-- number. The floats of the layout's growth shares are a parameter, of which only sums, the tests
-- against 0 and the share as an int are used. The width of a rune and, for the screen, the first
-- cluster of a text with its width rest on the tables of third-party packages and are parameters
-- too.
--
-- Fuel: the shrinking and filling loops of the layout run on the space that is still to be taken or
-- given, of which each round takes at least one; eviction runs on the number of entries; the loop of
-- the parser runs on the number of bytes, of which each round consumes one; the loops of the screen
-- run on the columns that are left. That it is enough is part of what is proved.
--
-- Not modelled: the widgets (drawing) but for the scrollbar's thumb, the screen's graphics and
-- regions and the bytes that it writes, the terminal, the network and the third-party library, the
-- disk part of the media cache, plugins, accounts, settings but for colours, the goroutines and
-- channels around the parser, and of the store GroupChannelsWithPriority, the float interpolation of
-- LerpColor, and slices that a caller shares with it.
pub mod Base
pub mod Store
pub mod Layout
pub mod Gate
pub mod Media
pub mod Focus
pub mod Input
pub mod Screen
pub mod Text
pub mod Scrollbar
pub mod Config
