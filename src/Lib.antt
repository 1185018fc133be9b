-- ===== src/Lib.antt =====
-- ZombieFinder, a Windows program that finds the processes that have exited and are still represented
-- in the kernel, and the processes that hold handles to them.
--
-- How the program works, and which file models which part. The paths are those of the repository.
-- ZombieFinder.cpp reads the command line and calls ZombieOwners::Update (ZombieOwners.cpp). That
-- function impersonates, enables a privilege (SecurityUtils.cpp) and calls Update_Impl, which asks
-- ZombieHandles.cpp for a new handle to each zombie and to each of its threads, fetches the table of
-- all handles of the system (AllHandlesSystemwide.cpp, in a block of HeapMem.cpp), finds the kernel
-- objects that its own new handles lead to, and charges every other handle to one of them to the
-- process that holds it, whose image path and services it looks up (UtilityFunctions.cpp,
-- ServiceLookupByPID.cpp). The owners are sorted; zombies that no handle leads to are unexplained.
--
-- Base: Boolean tests, lists, association lists for std::unordered_map and std::map, texts as
-- lists of codes, and the parts of the C library that print and read numbers.
-- Hex, ErrorText: HEX.h and SysErrorMessage.cpp.
-- Handles: traces of the handles (or blocks) that are opened and closed.
-- Processes, Processes/Ago: UtilityFunctions.cpp.
-- NtInternal: the structures of NtInternal.h for processes; ZombieInfo: ZombieProcessThreadInfo.h;
-- Enumeration: what Windows answers to the enumeration of the processes.
-- ZombieHandles: ZombieHandles.cpp. `inspect` is the body of the loop, `visit` the body with the
-- close of the handle before it, `enumerate` the loop with what follows it. Safety, Found, Rounds
-- and Counts hold the proofs.
-- HeapMem: HeapMem.cpp. AllHandles: AllHandlesSystemwide.cpp and the structures of NtInternal.h for
-- handles.
-- Services: ServiceLookupByPID.cpp; Services/Requests: its static variables over many calls.
-- SecurityUtils: SecurityUtils.cpp.
-- Strings: StringUtils.h and StringUtils.cpp, and the C functions that they use; Strings/Paths and
-- Strings/Directory: file paths; Strings/Parent: what the latter gives; Strings/Last:
-- std::wstring::find_last_of; Strings/Split, Strings/Prefix, Strings/Replace: the functions of these
-- names; Strings/Times: the date and time texts.
-- ZombieOwners: the structures, the comparator and the bodies of the two loops of Update_Impl;
-- ZombieOwners/Sorting: std::sort; ZombieOwners/Object: the class with its members and pointers;
-- ZombieOwners/Update: Update_Impl and Update, and ZombieOwners/Update/Described: what they are to make
-- of the answers of Windows.
-- CommandLine: the command line of ZombieFinder.cpp. FullThreadReport: FullThreadReport.cpp.
-- FileOutput: FileOutput.cpp. ZombieHandles/Dump, AllHandles/Dump and Services/Dump: the functions
-- that write diagnostic files, and ZombieOwners/Diagnostics: the part of Update_Impl that calls them,
-- behind ZombieOwners/Update, which is the function for an empty directory.
-- Outputs: the four Output functions of ZombieFinder.cpp. They take the collection that the sorted
-- pointers lead to, and give the text that they write. Outputs/Rows: tables of texts, and what
-- SplitStringToVector makes of them; Outputs/Tables: the tables of the tab-delimited formats.
-- Wmain: `wmain` and `Usage`; a run gives its exit code and what it wrote to each stream.
-- Wmain/Printed: what it is to print.
-- Tests: concrete runs.
--
-- What Windows answers is an argument: records such as `Enumeration`, `SystemAnswer` and
-- `ProcessCalls` hold the results of the calls that one run of a function makes, as functions of the
-- arguments that the code passes where it passes any. No hypothesis is made on them but where a
-- theorem states one. Integers are natural numbers with the wrap-around of their type written out.
-- A std::map is iterated in the order of its keys; a std::unordered_map in the order of first insertion.
--
-- Bounds. The enumeration is the finite list of the processes that NtGetNextProcess reaches. The loop
-- of AllHandlesSystemwide::Update runs over a list of answers; the function gives `none` where the
-- list ends before the loop does. replaceStringAll runs on as many rounds as the text has characters,
-- since each round takes one at least; so does SplitStringToVector, with one round more for the last
-- field. All other recursion is on the structure of a list or a number.
-- `epoch` in ZombieOwners/Object counts the times m_owners was cleared, so that a pointer into it is
-- seen to dangle.
--
-- Texts are lists of codes, so that a definition stands for the overloads for std::wstring and for
-- std::string alike, which differ in the character type only.
--
-- Not modelled: resource.h and the build files, which are generated and hold no code of the program.
mod Base
pub mod Hex
pub mod ErrorText
pub mod Handles
pub mod Processes
pub mod Enumeration
pub mod NtInternal
pub mod ZombieHandles
pub mod ZombieInfo
pub mod HeapMem
pub mod Services
pub mod CommandLine
pub mod FullThreadReport
mod Tests
pub mod SecurityUtils
pub mod AllHandles
pub mod Strings
pub mod FileOutput
pub mod Outputs
pub mod ZombieOwners
pub mod Wmain
