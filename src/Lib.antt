-- ===== src/Lib.antt =====
-- The Python parts of a streaming text-to-speech service: text is normalized and split into clauses,
-- turned into token ids, batched through a VITS network up to its latents, and the latents are decoded
-- in chunks that are sent while the next one is decoded.
--
-- How the parts interact: a client (streaming/client.py) sends text to the text front end
-- (model_repo/tts_frontend/1/model.py), which calls `normalize` (streaming/text_norm.py) and a
-- tokenizer; the ids go to the latent front end (model_repo/vits_frontend/1/model.py), which fuses
-- requests into one batch and runs it through the TensorRT front half (streaming/trt_frontend.py) or
-- through `capture_latents` (streaming/chunked.py); the latents are decoded in chunks as
-- `ChunkedSynthesizer` does. `IncrementalSynthesizer` (streaming/incremental.py) feeds clauses of a
-- growing reply. The baseline server and its load driver (baseline/) serve whole utterances for
-- comparison, and the tools of export/ and streaming/sweep.py measure.
--
-- Files:
--   Base         shared names, list lemmas, text as code points, results, UTF-8, integers
--   TextNorm     streaming/text_norm.py: a module per rule (Money, Clock, Numbers, Rules, Symbols), the
--                order of the rules in TextNorm itself, Split for split_for_streaming
--   Incremental  streaming/incremental.py: push, flush and _synth with the bounded cache
--   Audio        the 16-bit conversion and the WAV container of baseline/server.py and the client
--   Chunked      streaming/chunked.py: geometry and bounds; Stream for the chunk loop, Capture for
--                capture_latents
--   Frontend     the execute methods of the two Triton backends: Text and Latents
--   Alignment    TRTFrontend.__call__ of streaming/trt_frontend.py; Compare for its check against PyTorch
--   Server       the handler of baseline/server.py as turns of threads that share the model
--   Startup      lifespan and healthz, initialize of the backends, the client's front hop
--   Loadtest     baseline/loadtest.py; Percentile for its pct
--   Client       the receive loop and the underruns of streaming/client.py
--   Sweep        snr_db and seam_snr_db of streaming/sweep.py; Rows for the sweeps of its main
--   Probe        export/probe_receptive_field.py, seam_step_ratio, encoder_is_causal
--   Runner       TRTRunner of export/build_trt.py
--   Engines      the engine builds of export/build_trt.py and export/build_trt_frontend.py; Pieces for the
--                quality check of the first
--   Stages       StageTimer of export/profile_stages.py and its report
--   Export       the noise swap and the checks of export/export_frontend_onnx.py and export/export_onnx.py
--   Listening    the chunked decode of export/make_ab_audio.py
--   Speedup      the chunked decodes of export/measure_speedup.py; Cost for its cost model
--   Batching     the table and the estimate of export/probe_batching.py
--   Quality      windows and valid_centre of export/validate_fp16.py; Report for what its main compares
--   Checkpoint   the lookup and the sizes of export/inspect_model.py; Fetch for export/fetch_model.py
--   Examples     the theorems at concrete inputs, with tests
--
-- How the code is read: a method that changes its object is a function from the state to the state and
-- its result; an exception is a value of Result; a generator is run to its end, and its clock is a
-- function of the number of readings. Text is a list of code points, and the classes of the regular
-- expressions are those of ASCII. Times are whole microseconds, and rounding is of exact fractions to
-- the even neighbour. Samples, fade weights and latent frames are parameters with the operations that
-- the code uses.
--
-- Fuel: a loop over chunks or pieces is given a round for each frame, since a chunk takes at least
-- one; a scanner one for each character, since a match takes at least one; a worker of the load driver
-- one for each microsecond until its end, since a request takes some time.
--
-- Parameters: the word engine inflect, the tokenizer, the network and its decoder, the TensorRT engines,
-- the clock, the replies of a server, the model hub, and TensorRT's parser and builder. What is relied
-- on of them is a record of hypotheses: Wordy for the word engine, Local for the decoder's receptive
-- field, ExactFade for the arithmetic of a crossfade, Takes for the shapes of an engine, Additive for tensor
-- sums. Noise is drawn anew by each call: one draw is a function of the places of the batch (Alignment), the
-- outcome of the one call of the network (Frontend.Latents), or the state of a generator that is passed on
-- (Server, Alignment.Compare, Export).
--
-- Not modelled: the Go gateway and load generator, the C++ backend, tracing by torch.onnx, timing
-- tables, printing and result files, and floating-point error.
pub mod Base
pub mod TextNorm
pub mod Incremental
pub mod Audio
pub mod Chunked
pub mod Frontend
pub mod Percentile
pub mod Loadtest
pub mod Server
pub mod Checkpoint
pub mod Client
pub mod Alignment
pub mod Sweep
pub mod Runner
pub mod Speedup
pub mod Engines
pub mod Stages
pub mod Export
pub mod Listening
pub mod Batching
pub mod Probe
pub mod Startup
pub mod Quality
pub mod Examples
