-- ===== src/Lib.antt =====
-- Verification of the rebuild detection of chaotic-next: which packages of a repository have to be
-- rebuilt after an update of Arch Linux or a deployment of Chaotic-AUR, and whom to blame; of the
-- watchdog that ends a build which does nothing, of the rate limit on failing packages, of parts of the
-- check of PKGBUILD changes, and of the smaller rules beside them.
--
-- The program and its parts. The backend reads the ELF data of every package (an analysis), and
-- after a change decides for each PKGBUILD directory whether a rebuild is due. The pure part is
-- backend/src/repo-manager/signal; the part that puts it to work on the rows of the database is
-- backend/src/repo-manager/scan.
--
-- - Base: lists, texts, maps and sets of the source. A text is a list of character codes, a `Map` or
--   a `Record` an association list, a `Set` a list without repetition. Base/MultiMap is the map from
--   a key to a pushed list, Base/Regex the engine for the regular expressions, Base/Splits the split of
--   a text at a separator, Base/Search the loop that returns the first result, Base/Number what
--   `Number` reads from a text.
-- - Signal/Versions, Latest: `releaseVersion`, `compareArchVersions`, `latestAnalysisByKey` of
--   signal/parse.ts, and shared-lib/src/lib/pkgrel.ts.
-- - Signal/Paths, Sonames: the path and soname helpers of signal/parse.ts.
-- - Signal/Listings, Sections: the parsers of signal/parse.ts for the output of tar, readelf and nm.
-- - Signal/Owners, Plugins: signal/plugin.ts without `buildAnalysis`: the owner keys, the index of
--   directories and the derivation of the packages that a package is a plugin of.
-- - Signal/Analysis: `buildAnalysis` of signal/plugin.ts, the row of a package from the outputs of the
--   tools.
-- - Signal/Graph, Broken: `buildDependencyGraph`, `findBrokenDependencies`, `findVersionNodeBreaks`
--   of signal/graph.ts.
-- - Signal/Abi: the vtable layouts of signal/abi.ts.
-- - Signal/Fixability: signal/fixability.ts.
-- - Scan/Baseline: scan/baseline-version.ts.
-- - Scan/Closure: the class `DependencyClosure` of scan/dependency-closure.ts, with `cleanDepName` of
--   backend/src/diff-scan/srcinfo-dependency.ts.
-- - Scan/Outputs: scan/pkgbase-outputs.ts. Scan/Records: the rows, with the columns that are read.
-- - Scan/Context, Attribution, PluginBreaks, Triggers, Releases, Missed, Detection: the class
--   `TriggerDetector` and the functions of scan/trigger-detector.ts. Context is what the check for
--   broken dependencies reads; Attribution names the culprit; PluginBreaks is the index of ABI breaks
--   and the consumers that it hits; Triggers, Releases and Missed are the four kinds of trigger in the
--   order of `detectArchTriggers`; Detection is the loop over the directories, and the one over the
--   consumers of a deployment.
-- - Scan/Providers: scan/latest-analyses.ts, and the loops of the detector that collect the providers
--   of sonames and of version nodes. Scan/Loading: the baselines and the two builders of the context.
--   Scan/Coverage: the breaks that no rebuild covers, and the sonames of removed providers.
-- - Watchdog: `ContainerActivityWatchdog` of
--   backend/src/portable-builder/container-activity-watchdog.ts, with the activity test of
--   container-usage.ts beside it. It stands apart from the rest.
-- - ShouldBuild: `shouldBuildDecision` of backend/src/builder/unresolved-failures.ts, which holds back
--   packages that keep failing.
-- - DiffScan: parts of backend/src/diff-scan. Typosquat is the distance of names and the closest known
--   name, ResponseCache the cache of responses with its requests in flight, Hunks the walk over a
--   unified diff, Heredocs the masking of echoed here-documents, Scopes
--   says which files a rule looks at.
-- - Bump: `parseCiConfig`, `applyBuilderClass` and `applyPackageBump` of
--   backend/src/repo-manager/bump/bump-config.ts, with the counter that a rebuild raises.
-- - Usage: the resource usage of a build container,
--   backend/src/portable-builder/container-usage.ts.
-- - PipelineTrigger: the check of a request that triggers a pipeline,
--   backend/src/gitlab/pipeline-trigger-inputs.ts.
--
-- State and errors. The watchdog is a record with a step for each event; a probe that awaits its
-- sample is two steps, so that a stop or a tick can come in between. The detection keeps no state
-- between runs: an object of the source that a loop fills is a value that the loop passes on. The
-- response cache is a record with a step for each event: a call, an answer, a failure, the
-- `finally` handler of a request, and the clearing. A thrown error is a constructor of a result type.
-- `null` and `undefined` are `none`. The queries of the detector are arguments: the loaded rows (`Loaded`, `Change`), or the tables that a step looks up
-- (`Database` of Scan/Missed). Waiting, yielding and log lines are left out.
--
-- Fuel. Five loops run on fuel: the comparison of segments, with the length of both texts, since
-- every turn takes a character; the printing of a number, with the number itself, since every turn
-- divides by ten; the removal of suffixes from a package name, with the length of the name, since every
-- turn shortens it; the reading of relocation entries, with the number of lines, since every turn takes
-- a line; and the worklist of the closure, with the number of dependencies of the caller and of
-- all records, since every turn takes a name off the stack, and a record puts its dependencies on it
-- once.
--
-- Limits. Numbers are exact, without the rounding of doubles, the length of a text counts its
-- UTF-16 code units, and `toLowerCase` changes ASCII letters only. The order of a `Record` is that
-- of its association list: a key that is an array index, which the source would move to the front,
-- is not told apart. `PACKAGE_ALIASES` is read as its two entries, without the properties that
-- every object inherits.
--
-- Not modelled: the decoding of obfuscated lines and the rules of the diff scan beyond the files named
-- above, the signal index, the services and job queues around the detector, the parser of pacman
-- databases, the frontend and the migrations, and the rest of the backend, which is input and output.
pub mod Base
pub mod Signal
pub mod Scan
pub mod Watchdog
pub mod ShouldBuild
pub mod DiffScan
pub mod Bump
pub mod Usage
pub mod PipelineTrigger
