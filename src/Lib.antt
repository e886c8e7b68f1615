-- ===== src/Lib.antt =====
-- lsfg-vk-android is a Vulkan layer that inserts generated frames between the frames of a game. Its
-- control part decides, frame by frame and from measured times, how many frames to generate, at what
-- quality, and whether the swapchain can take them. This library models that control part, class by
-- class, and proves what the classes guarantee.
--
-- The parts, and where they are modelled:
-- * Flow, in Flow/, is AdaptiveFlowController of include/adaptive_flow_controller.hpp and
--   src/adaptive_flow_controller.cpp: it moves the scale of the optical flow along the states of a
--   preset. Types has the data, Presets the tables, Constants the thresholds, Lifecycle the
--   constructor, configure, reset and seedCurrentScale, Signals the pressures that observe derives
--   from one observation, Observe the guards of observe in the order of the source, Observe/Trials
--   the evaluation of a step, and Observe/Actuate the steps themselves.
-- * Scheduler, in Scheduler/, is include/adaptive_scheduler.hpp and src/adaptive_scheduler.cpp.
--   Guard is AdaptiveSceneTransitionGuard, Timeline is SourceProtectedTimeline, Deadline is
--   DeadlineAdmissionPredictor (its two hints in Deadline/Hints), Capacity is
--   GeneratedPresentationCapacityTracker (observe in Capacity/Observe), and Frame is
--   AdaptiveFrameScheduler: the source rate in Frame/Rate, the cost limit in Frame/Cost, the density
--   lock in Frame/Density and plan in Frame/Plan. Cadence is LsfgOutputCadenceTracker and Baseline is
--   FixedSourceCadenceTracker.
-- * Policy, in Policy/, has the pure functions of include/adaptive_flow_handoff.hpp (Handoff), of
--   include/android_sync_policy.hpp (Sync), and the choice of a present mode of
--   include/swapchain_policy.hpp (Swapchain).
-- * Config, in Config/, is src/config/config.cpp and include/config/config.hpp: the file that names the
--   games, its checks, the store that is published, and the choice of a configuration. The TOML
--   library, the file system, the environment and the order in which a std::unordered_map is walked
--   are parameters.
-- * Capabilities is evaluateCapabilities of framegen/src/core/capabilities.cpp: each stage works on the
--   decision so far and rejects or goes on.
-- * Spirv, in Spirv/, is framegen/src/core/spirv_compat.cpp: the bytes and words of a shader module in
--   Words, its instructions in Walk and prepareSpirvForTarget in Prepare. A loop over instructions has
--   fuel, one turn for each word of the module, and each instruction has at least one word.
--
-- * Runtime, in Runtime/, is the part of LsContext of src/context.cpp and include/context.hpp that plans a
--   source frame and ends an epoch. Reset has resetAdaptiveSourceEpoch and enterSourceOnlyBypass;
--   Planning, Arrival, Admission and Cycle have the stages of present in the order of the source, up to
--   the flags of the cycle; Batch has the budget and the name of a batch and the frame that finds its
--   pass busy; History has what a completed history cycle changes; Passes has the retirement of a render
--   pass. The clocks, the answers of the
--   driver to a fence and the configuration are arguments, and closing a descriptor or asking the frame
--   generation for a scale is shown by the values it leaves. Otherwise, what present does after the
--   flags is not modelled.
--
-- The runtime calls the scheduling classes once per source frame: the timeline takes the arrival, the scheduler plans a
-- count, the guard, the predictor and the tracker reduce it, and the controller learns from the
-- measured times. The classes share no state; they meet in the values that the runtime passes on.
--
-- How code becomes a definition: the members of a class are the fields of a record, in snake case and
-- without the trailing underscore, and a method is a function from the record to the record that it
-- leaves, paired with the result where there is one. A long method is cut into the functions that its
-- blocks are, composed in the order of the source. Telemetry is part of the record.
--
-- Numbers: `unsigned`, `size_t` and `uint64_t` are natural numbers; where the source saturates or
-- wraps, so does the definition, and a counter that only a bounded number of frames could overflow
-- wraps as `unsigned` does. `float`, `double` and `long double` arithmetic is a parameter, the records
-- Floats and Extended of Float, since its rounding belongs to the processor; a theorem that relies on
-- a law of it has the law as a hypothesis. Float/Fixed is a decimal fixed-point arithmetic that fills
-- the parameter, in which the theorems are applied to concrete inputs. Times in nanoseconds are
-- integers, the ones of Common/Int.
--
-- Loops are structural: over a list where the source walks an array, and over the number of rounds
-- left where it counts. The search for the nearest estimate has three rounds, the distances from one
-- to three, which are all that an array of four has.
--
-- Not modelled: the names of enumerators for log lines; the rest of src/context.cpp, src/hooks.cpp,
-- src/layer.cpp and the other files that call Vulkan, whose behaviour is the driver's; the extraction of shaders and
-- the rest of the frame generation engine under framegen/, which rest on third-party code; and the user interface, the scripts and the tests.
pub mod Common
pub mod Float
pub mod Flow
pub mod Scheduler
pub mod Policy
pub mod Config
pub mod Capabilities
pub mod Spirv
pub mod Runtime
