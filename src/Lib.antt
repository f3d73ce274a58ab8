-- ===== src/Lib.antt =====
-- A model of pango, the Go client of the PAN-OS XML API, and its theorems.
--
-- The program: packages for each kind of object (poli/, objs/, netw/, ...) build xpaths and structs
-- and call a namespace (namespace/), which performs reads, writes and moves of rules by the client
-- (client.go); the client sends them to a device and reads the responses. util/ and version/ are
-- shared by all of them.
--
-- The files, and the code that each models:
--   Base, with its children: names that all others share; Go's errors (PanosError of client.go),
--     strings, numbers and formats. A panic is `none` of an Option in the functions that can panic.
--   Version: version/version.go. Order is about Gte, and RoundTrip about New and String.
--   Util: util/. Member: util/member.go and util/entry.go. Target, Flag, Xpath, Move and Packaging:
--     util/util.go and util/const.go, a function of the source by its name in lower case.
--   Namespace: namespace/namespace.go. Client has util/xapiclient.go as a record of operations on a
--     state S that stands for the device and the connection; Write is Set, Edit and Delete,
--     Unpackage is namespace/funcs.go, Retrieve
--     is retrieve with Object, Objects and Listing, and Group is MoveGroup, cut at its blocks.
--     Device says what the device does with a move, and Group/Model is a device that does so.
--   Client: client.go. Values is mergeUrlValues, addToData and asString with util/elementer.go. Config
--     is the configuration calls (Show, Get, Delete, Set, Edit, Move, Rename) over typeConfig,
--     Communicate and post, each by its name in lower case; its state Client has the queue of
--     PrepareMultiConfigure and the state of the network. Config/Queue is about the queue and
--     Config/Message about the form that is posted. Command is Op, Uid, Commit, ImportFile and
--     CommunicateFile. Batch is multiconf.go with MultiConfig and SendMultiConfigure, and Api is the
--     client as the util.XapiClient of a namespace. Settings is initCon, as a list of steps, whose
--     later ones stand in Settings/Steps. Response is endCommunication with the error responses, Job
--     is WaitForJob with util/jobs.go, Position is PositionFirstEntity, and Import is about the
--     imports of a vsys.
--   Poli: poli/. Rules has the operations that its packages share, over an xpath and over what a
--     package says of its rules (Kind), and Run says how their Set runs; Rules/Moves is about
--     MoveGroup. Security is
--     poli/security/entry.go, with its XML structs in Security/Xml; Security/Rules has the further
--     operations of poli/security/fw.go, and Fw and Pano are those of a firewall and of a Panorama
--     (poli/security/pano.go). Nat is poli/nat in the same way: its translations are in Nat/Xlate, the
--     structs of both versions in Nat/Xml, and Nat/Translation lists the translations that
--     a rule can say.
--     Pbf is poli/pbf, with the nested structs in Pbf/Parts, and Pbf/Forwarding lists what a rule can
--     say.
--   Userid: userid/. IpTags is userid/iptags.go and UserTags userid/usertags.go, each with a Paging about
--     its loop over the pages of a device; Message is userid/message.go with Run of userid/userid.go,
--     and Groups is userid/groups.go.
--   Commit: the commits of a firewall (commit/fw.go) and of a Panorama (commit/pano.go) as the structs
--     that are sent, with the push of a Panorama in Commit/All; Commit/RoundTrip is about the commit
--     of a Panorama.
--   Entries: what the packages of objs/, netw/, dev/ and pnrm/ share whose namespace holds a client alone
--     (as in objs/app/group/fw.go), over their xpath, their structs and the guards of their
--     locations, with EntryListUsing and MemberListUsing of client.go. Entries/Stored says what a
--     device does that stores objects by name, Entries/Device is such a device, Entries/Held is
--     about what it holds after objects are set, Entries/Access about what is read after it is written,
--     and Entries/Errors about Delete.
--   Objs, Dev, Netw, Pnrm: packages of these directories, a file for each: the Entry, the XML struct of
--     each version with specify and normalize, versioning, and the namespaces of fw.go and pano.go,
--     fw and pano, at a location. The file says which package it is. The conditional fields of an
--     entry are one expression each, where the source assigns to them in branches. Objs/Addr,
--     Objs/Srvc, Netw/Redist and Netw have a RoundTrip about what is read back, and Objs/Addr/Access
--     is about the address objects of a firewall on a device that stores objects by name.
--
-- Parameters: encoding/xml, encoding/json, the files, the environment and the network are arguments of
-- the definitions that use them, as is the conversion of a batch to an interface value. The
-- order of the rules on a device and the effect of a move on it are the hypotheses of
-- Device.MovesRules, as PAN-OS documents the move command.
--
-- Bounds: an int of Go has 64 bits, and no sum of the code leaves them. The fuel of the decimal
-- digits is the number plus one, above the count of its digits. WaitForJob loops until the device
-- says so; it runs over the list of responses, and past its end it is still waiting.
-- The loops over pages run on a unit of fuel for each request; theorems say how much is enough.
-- Set of the rules of poli/ calls itself and runs on fuel, a unit for each call, and Poli/Run tells a
-- result, a panic and spent fuel apart; one unit is enough unless the client says that rules are
-- invalid.
--
-- Not modelled: logging, the pause between two polls, CleanRawXml (a regular expression), the
-- part of Initialize that asks the device for an API key and its system information, the commands
-- that are fixed texts, and the packages of the other kinds of objects: those that carry raw
-- XML, that import interfaces into a vsys, or whose operations are those of Namespace (zones, routers,
-- routes).
pub mod Base
pub mod Util
pub mod Namespace
pub mod Version
pub mod Client
pub mod Poli
pub mod Userid
pub mod Commit
pub mod Entries
pub mod Objs
pub mod Dev
pub mod Netw
pub mod Pnrm
